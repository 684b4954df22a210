-- ===== src/Prelude/Texts.antt =====
-- Texts: the parts of Rust's `str` that the program uses, and association lists keyed by texts.
use Prim.Native.Nat.{ℕ, zero, suc, ◌+◌, ◌/◌, ◌%◌}
use Prim.Native.Char.{Char, code}
use Prim.Native.String.{String, ◌++◌ as str_append}
use mathlib.Core.Bool.{Bool, true, false, ◌&&◌}
use mathlib.Core.List.{List, [], ◌∷◌, ◌++◌}
use mathlib.Core.Option.{Option, none, some}
use text.Mathlib.Text.{◌==◌ as str_eq, find?}
use hostinger.Prelude.Tests.{◌==◌, ltb, if◌then◌else◌}

abbrev pub is_empty : String → Bool
is_empty String.[] = true
is_empty (String.◌∷◌ c s) = false

-- s.trim_end_matches(c), for a character given by its code
abbrev pub trim_end_matches : ℕ → String → String
trim_end_matches c String.[] = String.[]
trim_end_matches c (String.◌∷◌ x s) =
    let rest = trim_end_matches c s in
    if is_empty rest && code x == c then String.[] else String.◌∷◌ x rest

-- s.starts_with(c)
abbrev pub starts_with_char : ℕ → String → Bool
starts_with_char c String.[] = false
starts_with_char c (String.◌∷◌ x s) = code x == c

-- s.contains(t)
abbrev pub contains : String → String → Bool
contains s t = elim (find? s t) [ none ↦ false | some i ↦ true ]

-- HashMap::get
abbrev pub lookup {ℓ} : {V : Type ℓ} → String → List (String × V) → Option V
lookup k [] = none
lookup k ((j, v) ∷ m) = if str_eq j k then some v else lookup k m

-- The letter of `ys` at the place where `c` stands in `xs`.
abbrev transliterate : String → String → Char → Char
transliterate (String.◌∷◌ x xs) (String.◌∷◌ y ys) c =
    if code x == code c then y else transliterate xs ys c
transliterate _ _ c = c

-- s.to_lowercase(), for a text whose letters are ASCII
abbrev pub to_lowercase : String → String
to_lowercase String.[] = String.[]
to_lowercase (String.◌∷◌ c s) =
    String.◌∷◌ (transliterate "ABCDEFGHIJKLMNOPQRSTUVWXYZ" "abcdefghijklmnopqrstuvwxyz" c)
      (to_lowercase s)

-- s.starts_with(t)
abbrev pub starts_with : String → String → Bool
starts_with s String.[] = true
starts_with String.[] (String.◌∷◌ y t) = false
starts_with (String.◌∷◌ x s) (String.◌∷◌ y t) = code x == code y && starts_with s t

-- The UTF-8 bytes of a character.
abbrev char_bytes : ℕ → List ℕ
char_bytes n =
    if ltb n 128
    then n ∷ []
    else if ltb n 2_048
    then (192 + n / 64) ∷ (128 + n % 64) ∷ []
    else if ltb n 65_536
    then (224 + n / 4_096) ∷ (128 + n / 64 % 64) ∷ (128 + n % 64) ∷ []
    else (240 + n / 262_144) ∷ (128 + n / 4_096 % 64) ∷ (128 + n / 64 % 64) ∷ (128 + n % 64) ∷ []

-- s.as_bytes()
unfoldable pub as_bytes : String → List ℕ
as_bytes String.[] = []
as_bytes (String.◌∷◌ c s) = char_bytes (code c) ++ as_bytes s

abbrev digit : ℕ → String
digit n =
    if n == 0
    then "0"
    else if n == 1
    then "1"
    else if n == 2
    then "2"
    else if n == 3
    then "3"
    else if n == 4
    then "4"
    else if n == 5
    then "5"
    else if n == 6
    then "6"
    else if n == 7
    then "7"
    else if n == 8
    then "8"
    else "9"

decimal_from : ℕ → ℕ → String → String
decimal_from zero n acc = acc
decimal_from (suc fuel) n acc =
    let shown = str_append (digit (n % 10)) acc in
    let rest = decimal_from fuel (n / 10) shown in if ltb n 10 then shown else rest

-- format!("{}", n): the decimal digits of n, which has fewer than n + 1 of them.
unfoldable pub to_string : ℕ → String
unfolding decimal_from
to_string n = decimal_from (suc n) n String.[]
