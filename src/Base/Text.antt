-- ===== src/Base/Text.antt =====
-- What the program uses of Go's packages strings, strconv and fmt, over the native texts, whose
-- elements are code points. `to_lower` moves A to Z and the two letters outside ASCII that Go
-- lower-cases into ASCII (U+0130, U+212A); every text that the program lower-cases is compared
-- with ASCII words or is the key of an override. `quote` is `%q` without Go's table of unprintable letters.
use Prim.Native.Nat.{ℕ, zero, suc, ◌/◌, ◌%◌}
use Prim.Native.Char.{Char, code}
use Prim.Native.String
use Prim.Native.String.{String}
use mathlib.Core.Path.{◌≡◌, refl, subst}
use mathlib.Core.Logic.{◌↔◌, ◌⊎◌, inl, inr}
use mathlib.Core.Bool.{Bool, true, false, ◌&&◌, ◌||◌, not}
use mathlib.Core.Option.{Option, none, some}
use mathlib.Core.List.{List, [], ◌∷◌}
use native.Mathlib.Omega.{arith}
use text.Mathlib.Text.{◌==◌ as str_eq, starts_with, find?}
use text.Mathlib.TextEquality.{eq_iff}
use text.Mathlib.TextLemmas.{cons-ne-nil}
use gorchera.Base.Tests.{ltb, leb, ◌==◌ as nat_eq, Bool-cases, if◌then◌else◌}
use gorchera.Base.Lists.{All}
pub use text.Mathlib.Text.{starts_with}

infix 50 ◌is◌ ◌isn't◌
-- `==` and `!=` of texts.
abbrev pub ◌is◌ : String → String → Bool
s is t = str_eq s t

abbrev pub ◌isn't◌ : String → String → Bool
s isn't t = not (str_eq s t)

pub is_iff : (s t : String) → ((s is t) ≡ true) ↔ (s ≡ t)
is_iff s t = eq_iff s t

infixr 65 ◌^^◌
-- `+` of texts.
abbrev pub ◌^^◌ : String → String → String
s ^^ t = String.◌++◌ s t

-- `unicode.IsSpace`.
unfoldable pub is_space : Char → Bool
is_space c =
    let n = code c in
    leb 9 n && leb n 13
    || nat_eq n 32
    || nat_eq n 0x85
    || nat_eq n 0xa0
    || nat_eq n 0x1680
    || leb 0x2000 n && leb n 0x200a
    || nat_eq n 0x2028
    || nat_eq n 0x2029
    || nat_eq n 0x202f
    || nat_eq n 0x205f
    || nat_eq n 0x3000

pub is_empty : String → Bool
is_empty String.[] = true
is_empty (String.◌∷◌ c s) = false

pub trim_left : String → String
trim_left String.[] = String.[]
trim_left (String.◌∷◌ c s) = let rest = trim_left s in if is_space c then rest else String.◌∷◌ c s

pub trim_right : String → String
trim_right String.[] = String.[]
trim_right (String.◌∷◌ c s) =
    let rest = trim_right s in if is_space c && is_empty rest then String.[] else String.◌∷◌ c rest

-- `strings.TrimSpace`.
unfoldable pub trim_space : String → String
unfolding trim_left trim_right is_space is_empty
trim_space s = trim_left (trim_right s)

-- `strings.TrimSpace(s) == ""`.
unfoldable pub is_blank : String → Bool
unfolding trim_space is_empty
is_blank s = trim_space s is ""

-- A text that begins with a letter other than a space is not blank.
pub is_blank-cons : (c : Char) (s : String) → is_space c ≡ false → is_blank (String.◌∷◌ c s) ≡ false
unfolding is_blank trim_space
is_blank-cons c s h =
    rw (h, trim_right)
      (rw (h, trim_left)
        (elim (Bool-cases (String.◌∷◌ c (trim_right s) is "")) [
          | inl e ↦ absurd (cons-ne-nil c (trim_right s) ((is_iff _ "").0 e))
          | inr e ↦ e
        ]))

-- The letter at the place of `c` in the first text, taken from the second.
letter_at : String → String → Char → Char
letter_at String.[] _ c = c
letter_at (String.◌∷◌ u us) String.[] c = c
letter_at (String.◌∷◌ u us) (String.◌∷◌ l ls) c =
    let rest = letter_at us ls c in if nat_eq (code u) (code c) then l else rest

map_text : (Char → Char) → String → String
map_text f String.[] = String.[]
map_text f (String.◌∷◌ c s) = String.◌∷◌ (f c) (map_text f s)

-- `strings.ToLower`.
unfoldable pub to_lower : String → String
unfolding letter_at map_text
to_lower = map_text (letter_at "ABCDEFGHIJKLMNOPQRSTUVWXYZİK" "abcdefghijklmnopqrstuvwxyzik")

-- `strings.ToLower(strings.TrimSpace(s))`.
unfoldable pub fold_key : String → String
unfolding to_lower trim_space
fold_key s = to_lower (trim_space s)

-- `strings.EqualFold(s, t)` for an ASCII word `t` in small letters. Go folds U+017F to `s` too,
-- and not U+0130.
unfoldable pub equal_fold : String → String → Bool
unfolding letter_at map_text
equal_fold s t =
    map_text (letter_at "ABCDEFGHIJKLMNOPQRSTUVWXYZſK" "abcdefghijklmnopqrstuvwxyzsk") s is t

-- `strings.Contains`.
unfoldable pub contains : String → String → Bool
contains s t = elim (find? s t) [ none ↦ false | some _ ↦ true ]

-- `strings.HasSuffix`.
unfoldable pub has_suffix : String → String → Bool
has_suffix String.[] t = t is ""
has_suffix (String.◌∷◌ c s) t =
    let rest = has_suffix s t in if String.◌∷◌ c s is t then true else rest

-- firstNonEmpty of internal/orchestrator/planning.go.
unfoldable pub first_non_empty : List String → String
first_non_empty [] = ""
first_non_empty (s ∷ rest) = let later = first_non_empty rest in if is_blank s then later else s

-- Membership in a set of texts, as the program's `map[string]struct{}` is used.
unfoldable pub one_of : String → List String → Bool
one_of x [] = false
one_of x (y ∷ ys) = let rest = one_of x ys in if y is x then true else rest

-- The loop of uniqueStrings and mergeMissing: texts are trimmed, blank ones and repetitions are
-- left out.
unfoldable pub unique_from : List String → List String → List String
unfolding trim_space
unique_from seen [] = []
unique_from seen (v ∷ vs) =
    let value = trim_space v in
    elim (is_blank v || one_of value seen) [
      | true ↦ unique_from seen vs
      | false ↦ value ∷ unique_from (value ∷ seen) vs
    ]

-- uniqueStrings of internal/orchestrator/verification.go.
abbrev pub unique_strings : List String → List String
unique_strings = unique_from []

-- `strings.Join`.
unfoldable pub join : List String → String → String
join [] sep = ""
join (s ∷ []) sep = s
join (s ∷ t ∷ r) sep = s ^^ sep ^^ join (t ∷ r) sep

abbrev pub OneOf : String → List String → Type 0
OneOf x [] = ⊥
OneOf x (y ∷ ys) = (y ≡ x) ⊎ OneOf x ys

pub one_of_iff : (x : String) (ys : List String) → (one_of x ys ≡ true) ↔ OneOf x ys
unfolding one_of
one_of_iff x [] = ((λ h. cc), λ h. absurd h)
one_of_iff x (y ∷ ys) = ground (arith, is_iff y x, one_of_iff x ys)

-- What holds of each text of a set holds of a member.
pub OneOf-each : (P : String → Type 0) (x : String) (ys : List String) → All P ys → OneOf x ys → P x
OneOf-each P x [] h m = absurd m
OneOf-each P x (y ∷ ys) h (inl e) = subst P e h.0
OneOf-each P x (y ∷ ys) h (inr m) = OneOf-each P x ys h.1 m

-- The elements that pass a test.
abbrev pub keep : (String → Bool) → List String → List String
keep test [] = []
keep test (y ∷ ys) = if test y then y ∷ keep test ys else keep test ys

pub OneOf-keep_iff :
    (test : String → Bool) (x : String) (ys : List String)
    → OneOf x (keep test ys) ↔ (OneOf x ys × (test x ≡ true))
OneOf-keep_iff test x [] = ((λ h. absurd h), λ h. absurd h.0)
OneOf-keep_iff test x (y ∷ ys) = elim (Bool-cases (test y)) [
  | inl passes ↦ rw passes (
    (λ h. elim h [
      | inl e ↦ (inl e, subst (λ z. test z ≡ true) e passes)
      | inr r ↦ (inr ((OneOf-keep_iff test x ys).0 r).0, ((OneOf-keep_iff test x ys).0 r).1)
    ]),
    λ h. elim h.0 [ inl e ↦ inl e | inr r ↦ inr ((OneOf-keep_iff test x ys).1 (r, h.1)) ],
  )
  | inr fails ↦ rw fails (
    (λ r. (inr ((OneOf-keep_iff test x ys).0 r).0, ((OneOf-keep_iff test x ys).0 r).1)),
    λ h. elim h.0 [
      | inl e ↦ cc (subst (λ z. test z ≡ false) e fails, h.1)
      | inr r ↦ (OneOf-keep_iff test x ys).1 (r, h.1)
    ],
  )
]

-- Membership in a set with some texts excepted.
pub one_of-keep_iff :
    (test : String → Bool) (x : String) (ys : List String)
    → ((one_of x ys ≡ true) × (test x ≡ true)) ↔ OneOf x (keep test ys)
one_of-keep_iff test x ys = (
  (λ h. (OneOf-keep_iff test x ys).1 ((one_of_iff x ys).0 h.0, h.1)),
  λ h. let both = (OneOf-keep_iff test x ys).0 h in ((one_of_iff x ys).1 both.0, both.1),
)

-- `if err := a; err != nil { return err }; return b`, where `none` is the nil error.
infixr 4 ◌or_else◌
abbrev pub ◌or_else◌ : Option String → Option String → Option String
none or_else e = e
some e or_else _ = some e

digit : ℕ → String
digit n = letter_text "0123456789abcdef" n
  where
    letter_text : String → ℕ → String
    letter_text String.[] k = ""
    letter_text (String.◌∷◌ c s) zero = String.◌∷◌ c ""
    letter_text (String.◌∷◌ c s) (suc k) = letter_text s k

-- `n + 1` rounds are more than the digits of `n`.
itoa_from : ℕ → ℕ → String → String
itoa_from zero n tail = tail
itoa_from (suc fuel) n tail =
    let more = itoa_from fuel (n / 10) (digit (n % 10) ^^ tail) in
    if ltb n 10 then digit n ^^ tail else more

-- `%d` of a number that is not negative.
unfoldable pub itoa : ℕ → String
unfolding digit itoa_from
itoa n = itoa_from (suc n) n ""

escape : Char → String
escape c =
    let n = code c in
    if nat_eq n b'"'
    then "\\\""
    else if nat_eq n b'\\'
    then "\\\\"
    else if nat_eq n 7
    then "\\a"
    else if nat_eq n 8
    then "\\b"
    else if nat_eq n 12
    then "\\f"
    else if nat_eq n 10
    then "\\n"
    else if nat_eq n 13
    then "\\r"
    else if nat_eq n 9
    then "\\t"
    else if nat_eq n 11
    then "\\v"
    else if ltb n 32 || nat_eq n 127
    then "\\x" ^^ digit (n / 16) ^^ digit (n % 16)
    else String.◌∷◌ c ""

escape_all : String → String
escape_all String.[] = ""
escape_all (String.◌∷◌ c s) = escape c ^^ escape_all s

-- `%q`.
unfoldable pub quote : String → String
unfolding escape escape_all digit
quote s = "\"" ^^ escape_all s ^^ "\""

trims : trim_space " \t a b\n" ≡ "a b"
unfolding trim_space
trims = refl

lowers : fold_key "  Run_System " ≡ "run_system"
unfolding fold_key
lowers = refl

prints : (itoa 1204 ≡ "1204") × (quote "a\"b" ≡ "\"a\\\"b\"") × (contains "abcd" "bc" ≡ true)
unfolding itoa quote contains
prints = (refl, refl, refl)

suffixes :
    (has_suffix "job_blocked" "_blocked" ≡ true) × (has_suffix "job_failed" "_blocked" ≡ false)
unfolding has_suffix
suffixes = (refl, refl)
