-- ===== src/Manager/Paths.antt =====
-- SimulationManager::getCfgFilePath (momosecpp/src/SimulationManager.cpp). A path is the list of its
-- characters, and the index of the search is kept one higher than in the code, where it ends at -1.
use Prim.Native.Char.{Char, code}
use Prim.Native.String.{String}
use simulations.Base.{
  ℕ, zero, suc, ◌+◌, ◌≡◌, refl, sym, ap, arith, Bool, true, false, if◌then◌else◌, ◌==◌, List, [],
  ◌∷◌, ◌++◌, Option, none, some, length, get_elem?, take, drop, All, length-append, append_assoc,
  ◌∙◌,
}

abbrev pub chars : String → List Char
chars String.[] = []
chars (String.◌∷◌ c s) = c ∷ chars s

abbrev pub is_separator : Char → Bool
is_separator c = code c == b'/'

abbrev pub separator_at : Option Char → Bool
separator_at none = false
separator_at (some c) = is_separator c

-- The search runs back from the end of the path to a separator, or past its start.
unfoldable pub seek : List Char → ℕ → ℕ
seek path zero = zero
seek path (suc index) =
    let rest = seek path index in if separator_at (get_elem? path index) then suc index else rest

unfoldable pub insert_at : ℕ → List Char → List Char → List Char
insert_at i text path = take i path ++ (text ++ drop i path)

unfoldable pub get_cfg_file_path : String → List Char → List Char
unfolding seek insert_at
get_cfg_file_path model_name main_cfg_file =
    insert_at (seek main_cfg_file (length main_cfg_file)) (chars model_name ++ chars "-")
      main_cfg_file

abbrev pub Plain : List Char → Type 0
Plain = All (λ c. is_separator c ≡ false)

abbrev pub folder : List Char → Char → List Char
folder dir slash = dir ++ (slash ∷ [])

beyond :
    (dir base : List Char) (i : ℕ) → get_elem? (dir ++ base) (length dir + i) ≡ get_elem? base i
beyond [] base i = let place : 0 + i ≡ i = omega arith in ap (get_elem? base) place
beyond (d ∷ dir) base i =
    let place : suc (length dir) + i ≡ suc (length dir + i) = omega arith in
    ap (get_elem? ((d ∷ dir) ++ base)) place ∙ beyond dir base i

separator_at-Plain :
    (base : List Char) (j : ℕ) → Plain base → separator_at (get_elem? base j) ≡ false
separator_at-Plain [] j plain = refl
separator_at-Plain (c ∷ base) zero plain = plain.0
separator_at-Plain (c ∷ base) (suc j) plain = separator_at-Plain base j plain.1

seek-down :
    (path : List Char) (i k : ℕ)
    → ((j : ℕ) → separator_at (get_elem? path (i + j)) ≡ false)
    → seek path (i + k) ≡ seek path i
unfolding seek
seek-down path i zero plain = let place : i + 0 ≡ i = omega arith in ap (seek path) place
seek-down path i (suc k) plain =
    let place : i + suc k ≡ suc (i + k) = omega arith in
    ap (seek path) place ∙ rw (plain k) (seek-down path i k plain)

take-append : (xs ys : List Char) → take (length xs) (xs ++ ys) ≡ xs
take-append [] ys = refl
take-append (x ∷ xs) ys = ap (λ zs. x ∷ zs) (take-append xs ys)

drop-append : (xs ys : List Char) → drop (length xs) (xs ++ ys) ≡ ys
drop-append [] ys = refl
drop-append (x ∷ xs) ys = drop-append xs ys

-- Where the search has gone down to the folder.
insert_at_folder :
    (model_name : String) (dir base : List Char)
    → seek (dir ++ base) (length dir) ≡ length dir
    → Plain base
    → get_cfg_file_path model_name (dir ++ base) ≡ dir ++ ((chars model_name ++ chars "-") ++ base)
unfolding get_cfg_file_path insert_at
insert_at_folder model_name dir base found plain =
    let file = chars model_name ++ chars "-" in
    let none_below : (j : ℕ) → separator_at (get_elem? (dir ++ base) (length dir + j)) ≡ false =
      λ j. ap separator_at (beyond dir base j) ∙ separator_at-Plain base j plain in
    let at : seek (dir ++ base) (length (dir ++ base)) ≡ length dir =
      ap (seek (dir ++ base)) (length-append dir base)
      ∙ (seek-down (dir ++ base) (length dir) (length base) none_below ∙ found) in
    rw (at, take-append dir base, drop-append dir base) refl

seek-folder :
    (dir base : List Char) (slash : Char)
    → is_separator slash ≡ true
    → seek (folder dir slash ++ base) (length (folder dir slash)) ≡ length (folder dir slash)
unfolding seek
seek-folder dir base slash e =
    let path = folder dir slash ++ base in
    let size : length (folder dir slash) ≡ suc (length dir) =
      length-append dir (slash ∷ []) ∙ omega arith in
    let joined : path ≡ dir ++ (slash ∷ base) = append_assoc dir (slash ∷ []) base in
    let zeroth : length dir + 0 ≡ length dir = omega arith in
    let last : get_elem? path (length dir) ≡ some slash =
      ap (λ p. get_elem? p (length dir)) joined
      ∙ (ap (get_elem? (dir ++ (slash ∷ base))) (sym zeroth) ∙ beyond dir (slash ∷ base) 0) in
    rw size (rw (last, e) refl)

-- If the file's own name has no separator, the path of a model's configuration is the file's path
-- with the model's name and a dash put before that name: alone, or after a folder that ends in a
-- separator.
pub get_cfg_file_path-beside :
    (model_name : String) (dir base : List Char) (slash : Char)
    → is_separator slash ≡ true
    → Plain base
    → (get_cfg_file_path model_name base ≡ (chars model_name ++ chars "-") ++ base)
      × (get_cfg_file_path model_name (folder dir slash ++ base)
          ≡ folder dir slash ++ ((chars model_name ++ chars "-") ++ base))
unfolding seek
get_cfg_file_path-beside model_name dir base slash e plain = (
  insert_at_folder model_name [] base refl plain,
  insert_at_folder model_name (folder dir slash) base (seek-folder dir base slash e) plain,
)
