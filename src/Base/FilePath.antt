-- ===== src/Base/FilePath.antt =====
-- What the program uses of Go's package path/filepath, on a system whose separator is `/`.
use Prim.Native.Char.{code}
use Prim.Native.String.{String}
use mathlib.Core.Path.{◌≡◌, refl}
use mathlib.Core.Bool.{Bool, true, false, ◌&&◌, ◌||◌}
use mathlib.Core.List.{List, [], ◌∷◌, ◌++◌, map, reverse}
use gorchera.Base.Tests.{◌==◌, if◌then◌else◌}
use gorchera.Base.Text.{◌is◌, ◌isn't◌, ◌^^◌, join, starts_with}

-- `filepath.Base`: trailing separators are dropped, then all up
-- to the last separator.
drop_slashes : String → String
drop_slashes String.[] = ""
drop_slashes (String.◌∷◌ c s) =
    let rest = drop_slashes s in if code c == b'/' && rest is "" then "" else String.◌∷◌ c rest

-- `last` is the part after the last separator so far.
last_element : String → String → String
last_element last String.[] = last
last_element last (String.◌∷◌ c s) =
    last_element (if code c == b'/' then "" else last ^^ String.◌∷◌ c "") s

unfoldable pub base : String → String
unfolding drop_slashes last_element
base path =
    if path is ""
    then "."
    else let kept = drop_slashes path in if kept is "" then "/" else last_element "" kept

-- The parts between the separators; `part` is the part so far.
unfoldable pub elements : String → String → List String
elements part String.[] = part ∷ []
elements part (String.◌∷◌ c s) = elim (code c == b'/') [
  | true ↦ part ∷ elements "" s
  | false ↦ elements (part ^^ String.◌∷◌ c "") s
]

unfoldable pub is_abs : String → Bool
is_abs path = starts_with path "/"

-- The loop of `filepath.Clean` over the parts, with those kept so far, the last one first.
clean_from : Bool → List String → List String → List String
clean_from rooted kept [] = reverse kept
clean_from rooted [] (part ∷ parts) =
    if part is "" || part is "." || rooted && part is ".."
    then clean_from rooted [] parts
    else clean_from rooted (part ∷ []) parts
clean_from rooted (last ∷ kept) (part ∷ parts) =
    if part is "" || part is "."
    then clean_from rooted (last ∷ kept) parts
    else if part is ".." && last isn't ".."
    then clean_from rooted kept parts
    else clean_from rooted (part ∷ last ∷ kept) parts

clean_parts : String → List String
unfolding clean_from
clean_parts path = clean_from (is_abs path) [] (elements "" path)

-- `filepath.Clean`.
unfoldable pub clean : String → String
unfolding clean_parts
clean path =
    let kept = join (clean_parts path) "/" in
    if is_abs path then "/" ^^ kept else if kept is "" then "." else kept

-- `filepath.Join` of two paths.
unfoldable pub join_path : String → String → String
join_path dir name =
    if dir is "" then (if name is "" then "" else clean name) else clean (dir ^^ "/" ^^ name)

-- The parts of the target after those that it shares with the base, behind a ".." for each further
-- part of the base.
rel_parts : List String → List String → List String
rel_parts [] ts = ts
rel_parts (b ∷ bs) [] = ".." ∷ rel_parts bs []
rel_parts (b ∷ bs) (t ∷ ts) =
    if b is t then rel_parts bs ts else ".." ∷ map (λ (x : String). "..") bs ++ t ∷ ts

-- `filepath.Rel` of two absolute paths, for which it has no error.
unfoldable pub rel : String → String → String
unfolding rel_parts clean_parts
rel root target =
    let parts = rel_parts (clean_parts root) (clean_parts target) in
    let text = join parts "/" in if text is "" then "." else text

cleans :
    (clean "/w/./a/../b//c/" ≡ "/w/b/c")
    × (clean "../x/.." ≡ "..")
    × (rel "/w/a" "/w/b/c" ≡ "../b/c")
    × (join_path "/w" "../v" ≡ "/v")
    × (rel "/w" "/w" ≡ ".")
unfolding clean rel join_path elements is_abs join
cleans = (refl, refl, refl, refl, refl)
