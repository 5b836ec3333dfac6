-- ===== src/Delegation/Bundle.antt =====
-- service.ts: the text of the final artifact, cut to a number of UTF-8 bytes between two characters, by
-- a binary search. `Array.from(value)` is the list of code points.
use teti_bot.Base.{
  ℕ, zero, suc, ◌+◌, ◌-◌, ◌≤◌, ◌<◌, String, ◌≡◌, refl, sym, ap, ◌∙◌, ◌⊎◌, inl, inr, Bool, true,
  false, List, [], ◌∷◌, ◌++◌, arith, ◌==◌, number_equality, text_equality, if◌then◌else◌,
  Bool-cases, subst, codes, any, decimal,
}
use teti_bot.Base.{leb, ltb, length, take, utf8_size, utf8_length}
use Prim.Native.Nat.{◌/◌}
use teti_bot.Callability.TaskMachine.{TaskImage}

-- The loop, as long as `low < high`. Each turn makes `high - low` smaller, so fuel of that size is enough.
unfoldable pub search : (value : List ℕ) (maximum_bytes fuel low high : ℕ) → ℕ
search value maximum_bytes zero low high = low
search value maximum_bytes (suc fuel) low high =
    let middle = (low + high + 1) / 2 in
    let above = search value maximum_bytes fuel middle high in
    let below = search value maximum_bytes fuel low (middle - 1) in
    if ltb low high
    then (if leb (utf8_length (take middle value)) maximum_bytes then above else below)
    else low

unfoldable pub truncate_utf8 : (value : List ℕ) (maximum_bytes : ℕ) → List ℕ
truncate_utf8 value maximum_bytes =
    if leb (utf8_length value) maximum_bytes
    then value
    else take (search value maximum_bytes (length value) 0 (length value)) value

-- The longest beginning that fits, character by character.
unfoldable pub longest_fitting : (maximum_bytes : ℕ) → List ℕ → List ℕ
longest_fitting maximum_bytes [] = []
longest_fitting maximum_bytes (c ∷ cs) =
    let rest = longest_fitting (maximum_bytes - utf8_size c) cs in
    if leb (utf8_size c) maximum_bytes then c ∷ rest else []

-- This many characters fit, and one more does not, or there is none.
abbrev IsLongest : (value : List ℕ) (maximum_bytes n : ℕ) → Type 0
IsLongest value maximum_bytes n =
    (utf8_length (take n value) ≤ maximum_bytes)
    × ((suc maximum_bytes ≤ utf8_length (take (suc n) value)) ⊎ (n ≡ length value))

middle_bounds :
    (low high : ℕ) → low < high → (suc low ≤ (low + high + 1) / 2) × ((low + high + 1) / 2 ≤ high)
middle_bounds low high h = (omega arith, omega arith)

search-IsLongest :
    (value : List ℕ) (maximum_bytes fuel low high : ℕ)
    → low ≤ high
    → high ≤ low + fuel
    → utf8_length (take low value) ≤ maximum_bytes
    → (suc maximum_bytes ≤ utf8_length (take (suc high) value)) ⊎ (high ≡ length value)
    → IsLongest value maximum_bytes (search value maximum_bytes fuel low high)
unfolding search
search-IsLongest value maximum_bytes zero low high ordered enough fits above =
    let same : low ≡ high = omega arith in
    (
      fits,
      subst (λ n. (suc maximum_bytes ≤ utf8_length (take (suc n) value)) ⊎ (n ≡ length value))
          (sym same) above,
    )
search-IsLongest value maximum_bytes (suc fuel) low high ordered enough fits above =
    let middle = (low + high + 1) / 2 in
    elim (Bool-cases (ltb low high)) [
      | inl open_range ↦
          let below_high : low < high = ground arith in
          let (over_low, under_high) = middle_bounds low high below_high in
          elim (Bool-cases (leb (utf8_length (take middle value)) maximum_bytes)) [
            | inl e ↦
                let fits' : utf8_length (take middle value) ≤ maximum_bytes = ground arith in
                let rest =
                  search-IsLongest value maximum_bytes fuel middle high under_high (omega arith)
                    fits' above in
                rw open_range (rw e rest)
            | inr e ↦
                let over : suc maximum_bytes ≤ utf8_length (take middle value) = ground arith in
                let one_more : suc (middle - 1) ≡ middle = omega arith in
                let rest =
                  search-IsLongest value maximum_bytes fuel low (middle - 1) (omega arith)
                    (omega arith) fits (inl (rw one_more over)) in
                rw open_range (rw e rest)
          ]
      | inr closed ↦
          let not_below : ltb low high ≡ false = closed in
          let same : low ≡ high = ground arith in
          rw closed (
            fits,
            subst (λ n. (suc maximum_bytes ≤ utf8_length (take (suc n) value)) ⊎ (n ≡ length value))
                (sym same) above,
          )
    ]

after_one : (one rest bytes : ℕ) → one + rest ≤ bytes → rest ≤ bytes - one
after_one one rest bytes h = omega arith

beyond_one :
    (one rest longer bytes : ℕ)
    → one + rest ≤ bytes
    → suc bytes ≤ one + longer
    → suc (bytes - one) ≤ longer
beyond_one one rest longer bytes h k = omega arith

longest-eq :
    (value : List ℕ) (maximum_bytes n : ℕ)
    → IsLongest value maximum_bytes n
    → take n value ≡ longest_fitting maximum_bytes value
unfolding longest_fitting utf8_length
longest-eq [] maximum_bytes zero h = refl
longest-eq [] maximum_bytes (suc n) h = refl
longest-eq (c ∷ cs) maximum_bytes zero (fits, inl over) =
    let too_big : leb (utf8_size c) maximum_bytes ≡ false = ground arith in rw too_big refl
longest-eq (c ∷ cs) maximum_bytes zero (fits, inr e) = ground arith
longest-eq (c ∷ cs) maximum_bytes (suc n) (fits, over) =
    let fits_one : leb (utf8_size c) maximum_bytes ≡ true = ground arith in
    let rest =
      longest-eq cs (maximum_bytes - utf8_size c) n
        (after_one (utf8_size c) _ maximum_bytes fits, after over) in
    rw fits_one (ap (λ l. c ∷ l) rest)
  where
    after :
        (suc maximum_bytes ≤ utf8_length (take (suc (suc n)) (c ∷ cs))) ⊎ (suc n ≡ length (c ∷ cs))
        → (suc (maximum_bytes - utf8_size c) ≤ utf8_length (take (suc n) cs)) ⊎ (n ≡ length cs)
    after (inl h) = inl (beyond_one (utf8_size c) (utf8_length (take n cs)) _ maximum_bytes fits h)
    after (inr e) = inr (omega arith)

take_all : (value : List ℕ) → take (length value) value ≡ value
take_all [] = refl
take_all (c ∷ cs) = ap (λ l. c ∷ l) (take_all cs)

-- Cutting a text by the binary search gives its longest beginning within the bytes, which a pass over
-- the characters would keep.
pub truncate_utf8-longest_fitting :
    (value : List ℕ) (maximum_bytes : ℕ)
    → truncate_utf8 value maximum_bytes ≡ longest_fitting maximum_bytes value
unfolding truncate_utf8 utf8_length
truncate_utf8-longest_fitting value maximum_bytes =
    elim (Bool-cases (leb (utf8_length value) maximum_bytes)) [
      | inl e ↦
          let whole : utf8_length value ≤ maximum_bytes = ground arith in
          let all_of_it =
            longest-eq value maximum_bytes (length value) (rw (take_all value) whole, inr refl) in
          rw e (sym (take_all value) ∙ all_of_it)
      | inr e ↦
          let found =
            search-IsLongest value maximum_bytes (length value) 0 (length value) (omega arith)
              (omega arith) (omega arith) (inr refl) in
          let cut = longest-eq value maximum_bytes _ found in rw e cut
    ]

-- What an artifact says and shows.
pub record StageArtifact : Type 0 where
  pub text : List ℕ
  pub images : List TaskImage

-- `[a, ...rest].join("\n\n")`.
abbrev join_lines : List (List ℕ) → List ℕ
join_lines [] = []
join_lines (line ∷ []) = line
join_lines (line ∷ lines) = line ++ (10 ∷ 10 ∷ join_lines lines)

-- The sections of the text, from an index on.
abbrev sections : (index : ℕ) → List StageArtifact → List (List ℕ)
sections index [] = []
sections index (artifact ∷ artifacts) =
    (codes "步骤 " ++ decimal (suc index) ++ codes " 结果：\n" ++ artifact.text)
    ∷ sections (suc index) artifacts

unfoldable pub aggregate_text : List StageArtifact → (maximum_bytes : ℕ) → List ℕ
aggregate_text artifacts maximum_bytes =
    truncate_utf8
      (join_lines (
        (codes "Teti Host 已按冻结顺序完成 " ++ decimal (length artifacts) ++ codes " 个 Child Agent 步骤。")
        ∷ sections 0 artifacts))
      maximum_bytes

abbrev pub has_id : String → TaskImage → Bool
has_id id image = image.attachment_id == id

-- `if (!images.has(image.attachmentId)) images.set(…)`, for each image of an artifact.
abbrev pub add_images : (seen : List TaskImage) → List TaskImage → List TaskImage
add_images seen [] = seen
add_images seen (image ∷ images) =
    let kept = add_images seen images in
    let added = add_images (seen ++ (image ∷ [])) images in
    if any (has_id image.attachment_id) seen then kept else added

unfoldable pub unique_images : (seen : List TaskImage) → List StageArtifact → List TaskImage
unique_images seen [] = seen
unique_images seen (artifact ∷ artifacts) =
    unique_images (add_images seen artifact.images) artifacts

longest_fitting-utf8_length :
    (maximum_bytes : ℕ) (value : List ℕ)
    → utf8_length (longest_fitting maximum_bytes value) ≤ maximum_bytes
unfolding longest_fitting utf8_length
longest_fitting-utf8_length maximum_bytes [] = omega arith
longest_fitting-utf8_length maximum_bytes (c ∷ cs) =
    let rest = longest_fitting-utf8_length (maximum_bytes - utf8_size c) cs in
    elim (Bool-cases (leb (utf8_size c) maximum_bytes)) [
      | inl e ↦
          let fits : utf8_size c ≤ maximum_bytes = ground arith in
          rw e (
            refits (utf8_size c) (utf8_length (longest_fitting (maximum_bytes - utf8_size c) cs))
              maximum_bytes fits rest)
      | inr e ↦ rw e (omega arith)
    ]
  where
    refits : (one rest bytes : ℕ) → one ≤ bytes → rest ≤ bytes - one → one + rest ≤ bytes
    refits one rest bytes h k = omega arith

-- The text of the final artifact has at most the given number of bytes in UTF-8, however many artifacts
-- there are and whatever they say.
aggregate_text-utf8_length :
    (artifacts : List StageArtifact) (maximum_bytes : ℕ)
    → utf8_length (aggregate_text artifacts maximum_bytes) ≤ maximum_bytes
unfolding aggregate_text
aggregate_text-utf8_length artifacts maximum_bytes =
    rw (truncate_utf8-longest_fitting _ maximum_bytes) (longest_fitting-utf8_length maximum_bytes _)
