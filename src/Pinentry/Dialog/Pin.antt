-- ===== src/Pinentry/Dialog/Pin.antt =====
-- Reading the pin from the answer to `GETPIN` (src/prompt/pinentry.rs).
use secret_manager.Base.{
  ℕ, ◌≡◌, refl, sym, ap, ◌∙◌, Bool, true, false, ◌&&◌, ◌||◌, none, some, List, [], ◌∷◌, ◌++◌,
  append_assoc, append-nil, arith, ◌==◌, if◌then◌else◌, length, is_empty, all, All, Bytes, Text,
  bytes, text_eq, Result, ok,
}
use secret_manager.Utf8.{encode_chars}
use secret_manager.Vault.Types.{IoError}
use secret_manager.Dbus.Paths.{strip_prefix}
use secret_manager.Pinentry.Escape.{IsScalar}
use secret_manager.Pinentry.Spell.{Mark, spell, meaning, IsMark, stays, unescape-spell, spell-stays}
use secret_manager.Pinentry.Dialog.{
  data_line, Assuan, trim_line, classify, added, took, collect, send, getpin, pin_sent,
}

trim_line-newline : (l : Text) → all stays l ≡ true → trim_line (l ++ (10 ∷ [])) ≡ l
unfolding trim_line
trim_line-newline [] h = refl
trim_line-newline (b ∷ l) h =
    let ih = trim_line-newline l (ground arith) in
    let no_end : ((b == 10) || (b == 13)) ≡ false = ground arith in rw (ih, no_end) (keep_byte l)
  where
    keep_byte : (l : Text) → (if is_empty l && false then [] else b ∷ l) ≡ b ∷ l
    keep_byte [] = refl
    keep_byte (x ∷ l) = refl

-- A line in front of the `OK`: a part of the pin, as it is written and as the characters that it
-- stands for, a status line or a comment.
pub data Answer : Type 0 where
  part : List Mark → List ℕ → Answer
  status comment : Text → Answer

abbrev pub line_of : Answer → Text
line_of (part marks cs) = bytes "D " ++ spell marks
line_of (status text) = bytes "S " ++ text
line_of (comment text) = bytes "#" ++ text

abbrev pub IsAnswer : Answer → Type 0
IsAnswer (part marks cs) = All IsMark marks × All IsScalar cs × (meaning marks ≡ encode_chars cs)
IsAnswer (status text) = all stays text ≡ true
IsAnswer (comment text) = all stays text ≡ true

-- The pin that the parts make.
unfoldable pub joined : List Answer → Text
joined [] = []
joined (part marks cs ∷ answers) = encode_chars cs ++ joined answers
joined (status text ∷ answers) = joined answers
joined (comment text ∷ answers) = joined answers

unfoldable pub lines_of : List Answer → List (Result IoError Text) → List (Result IoError Text)
lines_of [] rest = ok (bytes "OK" ++ (10 ∷ [])) ∷ rest
lines_of (a ∷ answers) rest = ok (line_of a ++ (10 ∷ [])) ∷ lines_of answers rest

classify-data : (x : Bytes) → classify (bytes "D " ++ x) ≡ some (ok (data_line x))
unfolding classify text_eq strip_prefix
classify-data x = refl

classify-status : (x : Bytes) → classify (bytes "S " ++ x) ≡ none
unfolding classify text_eq strip_prefix
classify-status x = refl

classify-comment : (x : Bytes) → classify (bytes "#" ++ x) ≡ none
unfolding classify text_eq strip_prefix
classify-comment x = refl

-- One line that is read in the loop.
collect-line :
    (acc line : Text) (lines : List (Result IoError Text))
    → all stays line ≡ true
    → collect acc (ok (line ++ (10 ∷ [])) ∷ lines)
      ≡ took (λ a. collect a lines) acc lines (classify line)
unfolding collect
collect-line acc [] lines h = refl
collect-line acc (b ∷ line) lines h =
    ap (λ t. took (λ a. collect a lines) acc lines (classify t)) (trim_line-newline (b ∷ line) h)

collect-lines_of :
    (acc : Text) (answers : List Answer) (rest : List (Result IoError Text))
    → All IsAnswer answers
    → collect acc (lines_of answers rest) ≡ (ok (acc ++ joined answers), rest)
unfolding lines_of joined took
collect-lines_of acc [] rest h =
    unfold collect text_eq in ap (λ p. (ok p, rest)) (sym (append-nil acc))
collect-lines_of acc (part marks cs ∷ answers) rest h =
    let next = λ (a : Text). collect a (lines_of answers rest) in
    collect-line acc (bytes "D " ++ spell marks) (lines_of answers rest) (spell-stays marks h.0.0)
    ∙ ap (took next acc (lines_of answers rest)) (classify-data (spell marks))
    ∙ ap (added next acc (lines_of answers rest)) (unescape-spell marks cs h.0.0 h.0.1 h.0.2)
    ∙ collect-lines_of (acc ++ encode_chars cs) answers rest h.1
    ∙ ap (λ p. (ok p, rest)) (append_assoc acc (encode_chars cs) (joined answers))
collect-lines_of acc (status text ∷ answers) rest h =
    let next = λ (a : Text). collect a (lines_of answers rest) in
    collect-line acc (bytes "S " ++ text) (lines_of answers rest) h.0
    ∙ ap (took next acc (lines_of answers rest)) (classify-status text)
    ∙ collect-lines_of acc answers rest h.1
collect-lines_of acc (comment text ∷ answers) rest h =
    let next = λ (a : Text). collect a (lines_of answers rest) in
    collect-line acc (bytes "#" ++ text) (lines_of answers rest) h.0
    ∙ ap (took next acc (lines_of answers rest)) (classify-comment text)
    ∙ collect-lines_of acc answers rest h.1

module _ (accepts : ℕ → Bool) where
  -- If `GETPIN` can be sent and the pinentry answers with data lines, status lines and comments in any
  -- order and then `OK`, and each data line writes whole characters, every one either as it is or each
  -- of its bytes as a percent sign and two hexadecimal digits of either case, the pin that is read is
  -- the characters of the data lines, one line after the other, and the reading stops behind the `OK`.
  -- A percent sign and a line break are not written as they are.
  pub getpin-answers :
      (c : Assuan) (answers : List Answer) (rest : List (Result IoError Text))
      → accepts (length c.sent) ≡ true
      → All IsAnswer answers
      → c.replies ≡ lines_of answers rest
      → getpin accepts c
        ≡ (ok (joined answers), record { replies = rest; sent = c.sent ++ (bytes "GETPIN" ∷ []) })
  unfolding getpin pin_sent send
  getpin-answers c answers rest a h e = rw (a, e, collect-lines_of [] answers rest h) refl
