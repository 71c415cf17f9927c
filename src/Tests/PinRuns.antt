-- ===== src/Tests/PinRuns.antt =====
-- The theorems on the dialogue with pinentry, at concrete dialogues.
use secret_manager.Base.{
  ℕ, ◌≡◌, refl, Bool, true, false, none, List, [], ◌∷◌, ◌++◌, arith, bytes, ok,
}
use secret_manager.Pinentry.{PinRequest}
use secret_manager.Pinentry.Dialog.{Assuan, getpin, ask}
use secret_manager.Pinentry.Dialog.Lines.{IsLines, ask-IsLines}
use secret_manager.Pinentry.Dialog.Pin.{
  Answer, part, status, comment, IsAnswer, joined, lines_of, getpin-answers,
}
use secret_manager.Pinentry.Spell.{Mark, plain, coded, meaning}
use secret_manager.Utf8.{encode_char, encode_chars}

abbrev accepts : ℕ → Bool
accepts n = true

-- A label with a newline and a command behind it.
abbrev request : PinRequest
request = record {
  title = bytes "Unlock";
  description = bytes "a" ++ (10 ∷ bytes "BYE");
  prompt = bytes "Password:";
  error = none;
  repeat = false;
}

-- The pin `50%é€`: the digits, and an escaped percent sign; a status line and a comment; then the
-- two bytes of one character, escaped in either case, and a character as it is.
abbrev first : List Mark
first =
    plain 53
    ∷ plain 48
    ∷ coded (record { capital = true; value = 2 }) (record { capital = true; value = 5 })
    ∷ []

abbrev second : List Mark
second =
    coded (record { capital = false; value = 12 }) (record { capital = false; value = 3 })
    ∷ coded (record { capital = true; value = 10 }) (record { capital = true; value = 9 })
    ∷ plain 0x20AC
    ∷ []

abbrev typed : List Answer
typed =
    part first (bytes "50%")
    ∷ status (bytes "PASSWORD_FROM_CACHE")
    ∷ comment (bytes " more")
    ∷ part second (0xE9 ∷ 0x20AC ∷ [])
    ∷ []

first-IsAnswer : IsAnswer (part first (bytes "50%"))
unfolding meaning encode_chars encode_char
first-IsAnswer = (
  (
    (refl, omega arith, omega arith, omega arith),
    ((refl, omega arith, omega arith, omega arith), ((omega arith, omega arith), tt)),
  ),
  (refl, (refl, (refl, tt))),
  refl,
)

second-IsAnswer : IsAnswer (part second (0xE9 ∷ 0x20AC ∷ []))
unfolding meaning encode_chars encode_char
second-IsAnswer = (
  (
    (omega arith, omega arith),
    ((omega arith, omega arith), ((refl, omega arith, omega arith, omega arith), tt)),
  ),
  (refl, (refl, tt)),
  refl,
)

abbrev started : Assuan
started = record { replies = lines_of typed []; sent = [] }

ask-IsLines_example : IsLines (ask accepts request started).1
ask-IsLines_example = ask-IsLines accepts request started refl

getpin-answers_example :
    getpin accepts started
    ≡ (ok (joined typed), record { replies = []; sent = started.sent ++ (bytes "GETPIN" ∷ []) })
getpin-answers_example =
    getpin-answers accepts started typed [] refl
      (first-IsAnswer, (refl, (refl, (second-IsAnswer, tt)))) refl
