-- ===== src/Pinentry/Dialog.antt =====
-- The lines that go to the pinentry program and come back (src/prompt/pinentry.rs).
pub mod Lines
pub mod Pin
use secret_manager.Base.{
  ℕ, zero, suc, ◌+◌, ◌-◌, ◌*◌, ◌/◌, ◌%◌, ◌^◌, ◌≤◌, ◌<◌, min, String, ◌≡◌, refl, sym, ap, ◌∙◌,
  fun_ext, ◌≢◌, ◌↔◌, ◌⊎◌, inl, inr, Bool, true, false, not, ◌&&◌, ◌||◌, Option, none, some, List,
  [], ◌∷◌, ◌++◌, map, append_assoc, append-nil, arith, ltb, leb, ◌==◌, if◌then◌else◌, ltb→lt,
  not-ltb→le, le→not-ltb, lt→ltb, ==_iff, tests, Bool-cases, Option-cases, length, is_empty,
  get_elem?, set, take, drop, all, any, All, length-append, append_inj, replicate, take-append,
  drop-append, take-take, drop-take, take-append-length, drop-append-length, take-append-drop,
  length-take, length-drop, length-set, Bytes, Text, bytes, text_eq, text_eq_iff, text_eq_refl,
  Result, ok, err, ◌>>=◌, ◌>>◌, ok_or, map_err, or_else, Result-cases,
}
use secret_manager.Base.Decimal.{is_digit, from_decimal}
use secret_manager.Utf8.{encode_chars}
use secret_manager.Vault.Types.{IoError}
use secret_manager.Dbus.Paths.{strip_prefix}
use secret_manager.Pinentry.{
  PinentryError, io, protocol, assuan, PinRequest, PinOutcome, pin, cancelled, is_cancel, escape,
  unescape,
}

pub data Reply : Type 0 where
  reply_ok : Reply
  data_line : Bytes → Reply
  error_line : ℕ → Text → Reply

-- The lines that the program will write, up to the end of its output, and those sent to it so far.
pub record Assuan : Type 0 where
  pub replies : List (Result IoError Text)
  pub sent : List Text

abbrev pub Done : Type 0
Done = Result PinentryError (Unit {0}) × Assuan

-- `trim_end_matches(['\n', '\r'])`
unfoldable pub trim_line : Text → Text
trim_line [] = []
trim_line (b ∷ bs) =
    let rest = trim_line bs in if is_empty rest && ((b == 10) || (b == 13)) then [] else b ∷ rest

-- `split_once(' ')`, with the whole and nothing where there is no space.
unfoldable pub split_once : Text → Text × Text
split_once [] = ([], [])
split_once (b ∷ bs) =
    let (front, back) = split_once bs in if b == b' ' then ([], bs) else (b ∷ front, back)

abbrev in_u32 : Text → Option ℕ
in_u32 digits =
    if is_empty digits || (not (all is_digit digits) || leb (2 ^ 32) (from_decimal 0 digits))
    then none
    else some (from_decimal 0 digits)

-- `str::parse::<u32>`
unfoldable pub parse_u32 : Text → Option ℕ
parse_u32 [] = none
parse_u32 (b ∷ bs) = if b == b'+' then in_u32 bs else in_u32 (b ∷ bs)

error_of : Text → Text → Option ℕ → Result PinentryError Reply
error_of line message none = err (protocol (bytes "bad error line: " ++ line))
error_of line message (some code) = ok (error_line code message)

-- What a trimmed line says; `none` for a status line or a comment.
unfoldable pub classify : Text → Option (Result PinentryError Reply)
unfolding strip_prefix split_once parse_u32 error_of
classify line =
    if text_eq line (bytes "OK")
    then some (ok reply_ok)
    else elim (strip_prefix (bytes "OK ") line) [
      | some _ ↦ some (ok reply_ok)
      | none ↦ elim (strip_prefix (bytes "D ") line) [
        | some rest ↦ some (ok (data_line rest))
        | none ↦ elim (strip_prefix (bytes "ERR ") line) [
          | some rest ↦
              let (code, message) = split_once rest in some (error_of line message (parse_u32 code))
          | none ↦ none
        ]
      ]
    ]

abbrev connection_closed : PinentryError
connection_closed = protocol (bytes "pinentry closed the connection")

-- The next reply and the lines behind it.
unfoldable pub read_reply :
    List (Result IoError Text) → Result PinentryError Reply × List (Result IoError Text)
unfolding classify trim_line
read_reply [] = (err connection_closed, [])
read_reply (err e ∷ lines) = (err (io e), lines)
read_reply (ok line ∷ lines) =
    let skipped = read_reply lines in
    if is_empty line
    then (err connection_closed, lines)
    else elim (classify (trim_line line)) [ none ↦ skipped | some r ↦ (r, lines) ]

abbrev ok_of : Result PinentryError Reply → Result PinentryError (Unit {0})
ok_of (ok reply_ok) = ok tt
ok_of (ok (error_line code message)) = err (assuan code message)
ok_of (ok (data_line d)) = err (protocol (bytes "unexpected data line"))
ok_of (err e) = err e

unfoldable pub expect_ok : Assuan → Done
unfolding read_reply
expect_ok c = let (r, lines) = read_reply c.replies in (ok_of r, record c { replies = lines })

-- `accepts n` says whether the line after `n` lines can be written.
module _ (accepts : ℕ → Bool) where
  abbrev broken_pipe : IoError
  broken_pipe = IoError.other 32

  unfoldable pub send : Text → Assuan → Done
  send line c =
      if accepts (length c.sent)
      then (ok tt, record c { sent = c.sent ++ (line ∷ []) })
      else (err (io broken_pipe), c)

  abbrev pub and_then : Done → (Assuan → Done) → Done
  and_then (ok _, c) f = f c
  and_then (err e, c) f = (err e, c)

  abbrev lenient : Done → Done
  lenient (err (assuan code message), c) = (ok tt, c)
  lenient (r, c) = (r, c)

  unfoldable pub command : Text → Assuan → Done
  unfolding send expect_ok
  command line c = and_then (send line c) expect_ok

  unfoldable pub command_lenient : Text → Assuan → Done
  unfolding command
  command_lenient line c = lenient (command line c)

  abbrev line_of : Text → List ℕ → Text
  line_of name text = name ++ encode_chars (escape text)

  set_title : List ℕ → Assuan → Done
  unfolding command_lenient
  set_title title c =
      if is_empty title then (ok tt, c) else command_lenient (line_of (bytes "SETTITLE ") title) c

  set_error : Option (List ℕ) → Assuan → Done
  unfolding command_lenient
  set_error none c = (ok tt, c)
  set_error (some e) c = command_lenient (line_of (bytes "SETERROR ") e) c

  unfoldable pub setup : PinRequest → Assuan → Done
  unfolding set_title set_error command
  setup req c = and_then (set_title req.title c) λ c1.
      and_then (command (line_of (bytes "SETDESC ") req.description) c1)
        λ c2. and_then (command (line_of (bytes "SETPROMPT ") req.prompt) c2) (set_error req.error)

abbrev Read : Type 0
Read = Result PinentryError Text × List (Result IoError Text)

added : (Text → Read) → Text → List (Result IoError Text) → Result PinentryError Text → Read
added next acc lines (ok more) = next (acc ++ more)
added next acc lines (err e) = (err e, lines)

took :
    (Text → Read) → Text → List (Result IoError Text) → Option (Result PinentryError Reply) → Read
unfolding added
took next acc lines none = next acc
took next acc lines (some (err e)) = (err e, lines)
took next acc lines (some (ok reply_ok)) = (ok acc, lines)
took next acc lines (some (ok (error_line code message))) = (err (assuan code message), lines)
took next acc lines (some (ok (data_line d))) = added next acc lines (unescape d)

-- The loop of `getpin` over what is read: the data lines up to `OK`, one after the other.
unfoldable pub collect : Text → List (Result IoError Text) → Read
unfolding classify trim_line took
collect acc [] = (err connection_closed, [])
collect acc (err e ∷ lines) = (err (io e), lines)
collect acc (ok line ∷ lines) =
    if is_empty line
    then (err connection_closed, lines)
    else took (λ a. collect a lines) acc lines (classify (trim_line line))

abbrev outcome_of : Result PinentryError Text → Result PinentryError PinOutcome
outcome_of (ok p) = ok (pin p)
outcome_of (err (assuan code message)) =
    if is_cancel code then ok cancelled else err (assuan code message)
outcome_of (err e) = err e

module _ (accepts : ℕ → Bool) where
  pin_sent : Done → Result PinentryError Text × Assuan
  unfolding collect
  pin_sent (err e, c) = (err e, c)
  pin_sent (ok _, c) = let (r, lines) = collect [] c.replies in (r, record c { replies = lines })

  unfoldable pub getpin : Assuan → Result PinentryError Text × Assuan
  unfolding pin_sent send
  getpin c = pin_sent (send accepts (bytes "GETPIN") c)

  set_repeat : Bool → Assuan → Done
  unfolding command_lenient
  set_repeat repeat c =
      if repeat then command_lenient accepts (bytes "SETREPEAT Repeat:") c else (ok tt, c)

  asked : Done → Result PinentryError PinOutcome × Assuan
  unfolding getpin is_cancel
  asked (err e, c) = (err e, c)
  asked (ok _, c) = let (r, c1) = getpin c in (outcome_of r, c1)

  -- The work of `ask_held` on a connection, before the farewell.
  unfoldable pub ask : PinRequest → Assuan → Result PinentryError PinOutcome × Assuan
  unfolding asked setup set_repeat
  ask req c = asked (and_then accepts (setup accepts req c) (set_repeat req.repeat))
