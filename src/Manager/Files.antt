-- ===== src/Manager/Files.antt =====
-- SimulationManager::parseXMLFile (momosecpp/src/SimulationManager.cpp): a file is read in blocks of
-- 1024 bytes, which are given to the XML reader in turn, with a mark on the last one. `E` is the
-- state of the XML reader and of the parser that it calls, and `feed` is XMLParser::Parse, whose
-- result the code does not read.
use mathlib.Core.Option.{map as map_option}
use simulations.Base.{
  ℕ, zero, suc, ◌+◌, ◌*◌, ◌<◌, ◌≡◌, refl, ap, sym, ◌∙◌, append-nil, ltb→lt, Bool, true, false, ltb,
  if◌then◌else◌, List, [], ◌∷◌, ◌++◌, append_assoc, Option, none, some, length, length-take-le,
  take, drop, All, arith, Bool-cases, inl, inr,
}

abbrev pub bufsize : ℕ
bufsize = 1024

abbrev pub joined : List (List ℕ) → List ℕ
joined [] = []
joined (b ∷ bs) = b ++ joined bs

take-drop_join : (n : ℕ) (xs : List ℕ) → take n xs ++ drop n xs ≡ xs
take-drop_join zero xs = refl
take-drop_join (suc n) [] = refl
take-drop_join (suc n) (x ∷ xs) = ap (λ ys. x ∷ ys) (take-drop_join n xs)

length-take_or : (n : ℕ) (xs : List ℕ) → length (take n xs) + length (drop n xs) ≡ length xs
length-take_or zero xs = omega arith
length-take_or (suc n) [] = omega arith
length-take_or (suc n) (x ∷ xs) = omega (arith, length-take_or n xs)

drop-short : (n : ℕ) (xs : List ℕ) → length (take n xs) < n → drop n xs ≡ []
drop-short zero xs h = absurd (omega arith)
drop-short (suc n) [] h = refl
drop-short (suc n) (x ∷ xs) h = drop-short n xs (omega arith)

module _ {E : Type 0} (feed : List ℕ → Bool → E → E) where
  -- The loop, on fuel: `none` is a file that has not been read to its end.
  unfoldable pub parse_blocks : ℕ → List ℕ → E → Option E
  parse_blocks zero bytes e = none
  parse_blocks (suc fuel) bytes e =
      let block = take bufsize bytes in
      let done = ltb (length block) bufsize in
      let fed = feed block done e in
      let rest = parse_blocks fuel (drop bufsize bytes) fed in if done then some fed else rest

  -- `none` is a file that cannot be opened, for which the code returns -1.
  unfoldable pub parse_xml_file : ℕ → Option (List ℕ) → E → Option (Option E)
  unfolding parse_blocks
  parse_xml_file fuel none e = some none
  parse_xml_file fuel (some bytes) e = map_option some (parse_blocks fuel bytes e)

  abbrev pub feed_all : List (List ℕ) → E → E
  feed_all [] e = e
  feed_all (b ∷ bs) e = feed_all bs (feed b false e)

  -- The blocks are the file's bytes in order; all but the last are full.
  abbrev pub IsFed : List ℕ → E → Option E → Type 0
  IsFed bytes e r =
      (bs : List (List ℕ)) × (last : List ℕ) × (r ≡ some (feed last true (feed_all bs e)))
      × (joined bs ++ last ≡ bytes)
      × All (λ b. length b ≡ bufsize) bs
      × (length last < bufsize)

  parse_blocks-IsFed :
      (fuel : ℕ) (bytes : List ℕ) (e : E)
      → length bytes < fuel * bufsize
      → IsFed bytes e (parse_blocks fuel bytes e)
  unfolding parse_blocks
  parse_blocks-IsFed zero bytes e h = absurd (omega arith)
  parse_blocks-IsFed (suc fuel) bytes e h =
      let block = take bufsize bytes in
      let sizes = length-take_or bufsize bytes in
      let whole = take-drop_join bufsize bytes in
      elim (Bool-cases (ltb (length block) bufsize)) [
        | inl short ↦
            let below : length block < bufsize = ltb→lt (length block) bufsize short in
            let rest_empty : drop bufsize bytes ≡ [] = drop-short bufsize bytes below in
            let all : block ≡ bytes =
              sym (append-nil block) ∙ ap (λ ys. block ++ ys) (sym rest_empty) ∙ whole in
            ([], block, rw short refl, all, tt, below)
        | inr full ↦
            let size : length block ≡ bufsize = ground (arith, length-take-le bufsize bytes) in
            let (bs, last, fed, same, sized, below) =
              parse_blocks-IsFed fuel (drop bufsize bytes) (feed block false e)
                (omega (arith, sizes, size)) in
            (
              block ∷ bs,
              last,
              rw full fed,
              append_assoc block (joined bs) last ∙ ap (λ ys. block ++ ys) same ∙ whole,
              (size, sized),
              below,
            )
      ]

  -- A file that is open, with fuel for one block more than it has full ones, is read to its end:
  -- the XML reader is given its bytes in order, in full blocks that are not marked, and then in
  -- one block that is not full, which may be empty, and is marked.
  pub parse_xml_file-fed :
      (fuel : ℕ) (bytes : List ℕ) (e : E)
      → length bytes < fuel * bufsize
      → (bs : List (List ℕ)) × (last : List ℕ) × (parse_xml_file fuel (some bytes) e
          ≡ some (some (feed last true (feed_all bs e))))
        × (joined bs ++ last ≡ bytes)
        × All (λ b. length b ≡ bufsize) bs
        × (length last < bufsize)
  unfolding parse_xml_file
  parse_xml_file-fed fuel bytes e h =
      let (bs, last, fed, same, sized, below) = parse_blocks-IsFed fuel bytes e h in
      (bs, last, ap (map_option some) fed, same, sized, below)
