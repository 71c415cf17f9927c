-- ===== src/Pinentry/Dialog/Lines.antt =====
-- The lines that are sent to the pinentry program (src/prompt/pinentry.rs).
use secret_manager.Base.{
  ℕ, ◌≡◌, refl, inl, inr, Bool, true, false, Option, none, some, List, [], ◌∷◌, ◌++◌, arith,
  Bool-cases, length, all, Text, bytes, ok, err,
}
use secret_manager.Utf8.{encode_chars}
use secret_manager.Pinentry.{spawn, busy, assuan, io, protocol, PinRequest, escape}
use secret_manager.Pinentry.Escape.{is_line_byte, escape-line}
use secret_manager.Pinentry.Dialog.{
  Assuan, Done, expect_ok, send, and_then, lenient, command, command_lenient, set_title, set_error,
  setup, set_repeat, pin_sent, getpin, asked, ask,
}

abbrev is_line : Text → Bool
is_line line = all is_line_byte line

-- No line that was sent has a byte below 0x20 or a byte 0x7F.
abbrev pub IsLines : Assuan → Type 0
IsLines c = all is_line c.sent ≡ true

all_line-append :
    (xs ys : List Text)
    → all is_line xs ≡ true
    → all is_line ys ≡ true
    → all is_line (xs ++ ys) ≡ true
all_line-append [] ys h k = k
all_line-append (x ∷ xs) ys h k = ground (arith, all_line-append xs ys)

named_line :
    (name : Text) (text : List ℕ)
    → is_line name ≡ true
    → is_line (name ++ encode_chars (escape text)) ≡ true
named_line [] text h = escape-line text
named_line (x ∷ name) text h = ground (arith, named_line name text)

module _ (accepts : ℕ → Bool) where
  and_then-IsLines :
      (r : Done) (f : Assuan → Done)
      → IsLines r.1
      → ((c : Assuan) → IsLines c → IsLines (f c).1)
      → IsLines (and_then accepts r f).1
  and_then-IsLines (ok _, c) f h k = k c h
  and_then-IsLines (err e, c) f h k = h

  lenient-IsLines : (r : Done) → IsLines r.1 → IsLines (lenient accepts r).1
  lenient-IsLines (ok _, c) h = h
  lenient-IsLines (err (assuan code message), c) h = h
  lenient-IsLines (err (io e), c) h = h
  lenient-IsLines (err (protocol m), c) h = h
  lenient-IsLines (err (spawn program e), c) h = h
  lenient-IsLines (err busy, c) h = h

  send-IsLines :
      (line : Text) (c : Assuan) → is_line line ≡ true → IsLines c → IsLines (send accepts line c).1
  unfolding send
  send-IsLines line c l h = elim (Bool-cases (accepts (length c.sent))) [
    | inl e ↦ rw e (all_line-append c.sent (line ∷ []) h (rw l refl))
    | inr e ↦ rw e h
  ]

  command-IsLines :
      (line : Text) (c : Assuan)
      → is_line line ≡ true
      → IsLines c
      → IsLines (command accepts line c).1
  unfolding command expect_ok
  command-IsLines line c l h =
      and_then-IsLines (send accepts line c) expect_ok (send-IsLines line c l h) λ c1 k. k

  command_lenient-IsLines :
      (line : Text) (c : Assuan)
      → is_line line ≡ true
      → IsLines c
      → IsLines (command_lenient accepts line c).1
  unfolding command_lenient
  command_lenient-IsLines line c l h =
      lenient-IsLines (command accepts line c) (command-IsLines line c l h)

  set_error-IsLines :
      (e : Option (List ℕ)) (c : Assuan) → IsLines c → IsLines (set_error accepts e c).1
  unfolding set_error
  set_error-IsLines none c h = h
  set_error-IsLines (some e) c h =
      command_lenient-IsLines _ c (named_line (bytes "SETERROR ") e refl) h

  set_title-IsLines : (t : List ℕ) (c : Assuan) → IsLines c → IsLines (set_title accepts t c).1
  unfolding set_title
  set_title-IsLines [] c h = h
  set_title-IsLines (x ∷ t) c h =
      command_lenient-IsLines _ c (named_line (bytes "SETTITLE ") (x ∷ t) refl) h

  setup-IsLines : (req : PinRequest) (c : Assuan) → IsLines c → IsLines (setup accepts req c).1
  unfolding setup
  setup-IsLines req c h =
      and_then-IsLines (set_title accepts req.title c) _ (set_title-IsLines req.title c h) λ c1 h1.
        and_then-IsLines (command accepts _ c1) _
          (command-IsLines _ c1 (named_line (bytes "SETDESC ") req.description refl) h1)
          λ c2 h2.
            and_then-IsLines (command accepts _ c2) (set_error accepts req.error)
              (command-IsLines _ c2 (named_line (bytes "SETPROMPT ") req.prompt refl) h2)
              (set_error-IsLines req.error)

  set_repeat-IsLines : (b : Bool) (c : Assuan) → IsLines c → IsLines (set_repeat accepts b c).1
  unfolding set_repeat
  set_repeat-IsLines true c h = command_lenient-IsLines (bytes "SETREPEAT Repeat:") c refl h
  set_repeat-IsLines false c h = h

  pin_sent-IsLines : (r : Done) → IsLines r.1 → IsLines (pin_sent accepts r).1
  unfolding pin_sent
  pin_sent-IsLines (ok _, c) h = h
  pin_sent-IsLines (err e, c) h = h

  asked-IsLines : (r : Done) → IsLines r.1 → IsLines (asked accepts r).1
  unfolding asked getpin
  asked-IsLines (ok _, c) h =
      pin_sent-IsLines (send accepts (bytes "GETPIN") c) (send-IsLines (bytes "GETPIN") c refl h)
  asked-IsLines (err e, c) h = h

  -- Whatever texts are to be shown, whatever the program answers and whenever it stops reading, no
  -- line that is sent to it has a byte below 0x20 or a byte 0x7F, if none sent before has: there is no
  -- line break in it, so no text that is shown ends its line and starts another command.
  pub ask-IsLines : (req : PinRequest) (c : Assuan) → IsLines c → IsLines (ask accepts req c).1
  unfolding ask
  ask-IsLines req c h =
      asked-IsLines (and_then accepts (setup accepts req c) (set_repeat accepts req.repeat)) (
        and_then-IsLines (setup accepts req c) (set_repeat accepts req.repeat)
          (setup-IsLines req c h) (set_repeat-IsLines req.repeat))
