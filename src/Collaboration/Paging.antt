-- ===== src/Collaboration/Paging.antt =====
-- PageRecord of internal/collaboration/projection.go, over the characters of an encoded record, which is
-- read as Unicode. The SHA-256 of the record is a parameter.
use omnigrex.Prelude.{
  ℕ, zero, suc, ◌+◌, ◌-◌, ◌≤◌, ◌<◌, ℤ, pos, String, true, false, List, [], ◌∷◌, ◌++◌, Option, none,
  some, ◌||◌, ◌≡◌, refl, sym, ap, ◌∙◌, inl, inr, arith, Bool-cases, if◌then◌else◌, ltb, leb, length,
  negsuc, or_false,
}
use mathlib.Core.Option.{some-injective}

abbrev pub record_chunk_runes : ℕ
record_chunk_runes = 4096

pub record RecordPage : Type 0 where
  pub record_sha_256 : String
  pub content : List ℕ
  pub index : ℕ
  pub total : ℕ
  pub next_offset : Option ℕ
  pub next_index : Option ℕ

-- `runes[n:]` and `runes[:n]`.
unfoldable pub drop : ℕ → List ℕ → List ℕ
drop n [] = []
drop zero (x ∷ xs) = x ∷ xs
drop (suc n) (x ∷ xs) = drop n xs

unfoldable pub take : ℕ → List ℕ → List ℕ
take n [] = []
take zero (x ∷ xs) = []
take (suc n) (x ∷ xs) = x ∷ take n xs

abbrev pub min : ℕ → ℕ → ℕ
min a b = if leb a b then a else b

-- The end of the chunk that starts at the offset.
abbrev pub chunk_end : List ℕ → ℕ → ℕ
chunk_end runes offset = min (length runes) (offset + record_chunk_runes)

abbrev natural : ℤ → Option ℕ
natural (pos n) = some n
natural _ = none

module _ (sha : List ℕ → String) where
  -- The page at an offset inside the record.
  abbrev pub page_of : List ℕ → (total index offset : ℕ) → RecordPage
  page_of runes total index offset =
      let last = chunk_end runes offset in
      record {
        record_sha_256 = sha runes;
        content = take (last - offset) (drop offset runes);
        index = index;
        total = total;
        next_offset = if ltb last (length runes) then some last else none;
        next_index =
            if ltb last (length runes)
            then none
            else if ltb (index + 1) total
            then some (index + 1)
            else none;
      }

  unfoldable pub page_at : List ℕ → (total index offset : ℕ) → Option RecordPage
  unfolding take drop
  page_at runes total index offset =
      if leb total index || leb (length runes) offset
      then none
      else some (page_of runes total index offset)

  -- A negative number is refused.
  unfoldable pub page_record : List ℕ → (total index offset : ℤ) → Option RecordPage
  unfolding page_at
  page_record runes (pos total) (pos index) (pos offset) = page_at runes total index offset
  page_record runes _ _ _ = none

  -- What a reader has that follows `next_offset`, with a bound on the number of its calls.
  unfoldable pub read_pages : ℕ → List ℕ → (total index offset : ℕ) → List ℕ
  read_pages zero runes total index offset = []
  read_pages (suc k) runes total index offset =
      elim (page_record runes (pos total) (pos index) (pos offset)) [
        | none ↦ []
        | some page ↦
            page.content
            ++ elim page.next_offset [ none ↦ [] | some next ↦ read_pages k runes total index next ]
      ]

take_split : (m : ℕ) (xs : List ℕ) → (take m xs ++ drop m xs) ≡ xs
unfolding take drop
take_split m [] = refl
take_split zero (x ∷ xs) = refl
take_split (suc m) (x ∷ xs) = ap (λ l. x ∷ l) (take_split m xs)

drop_zero : (xs : List ℕ) → drop 0 xs ≡ xs
unfolding drop
drop_zero [] = refl
drop_zero (x ∷ xs) = refl

drop_plus : (o m : ℕ) (xs : List ℕ) → drop (o + m) xs ≡ drop m (drop o xs)
unfolding drop
drop_plus o m [] = refl
drop_plus zero m (x ∷ xs) = ap (λ n. drop n (x ∷ xs)) (zero_plus m)
  where
    zero_plus : (m : ℕ) → 0 + m ≡ m
    zero_plus m = omega arith
drop_plus (suc o) m (x ∷ xs) = ap (λ n. drop n (x ∷ xs)) (suc_plus o m) ∙ drop_plus o m xs
  where
    suc_plus : (o m : ℕ) → suc o + m ≡ suc (o + m)
    suc_plus o m = omega arith

drop_all : (xs : List ℕ) (n : ℕ) → length xs ≤ n → drop n xs ≡ []
unfolding drop
drop_all [] n h = refl
drop_all (x ∷ xs) zero h = absurd (omega arith)
drop_all (x ∷ xs) (suc n) h = drop_all xs n (omega arith)

length-take : (m : ℕ) (xs : List ℕ) → length (take m xs) ≤ m
unfolding take
length-take m [] = omega arith
length-take zero (x ∷ xs) = omega arith
length-take (suc m) (x ∷ xs) = let ih = length-take m xs in omega arith

-- A chunk is not empty, has at most the characters of one, and ends within the record.
chunk_facts :
    (n offset : ℕ)
    → offset < n
    → (offset < min n (offset + record_chunk_runes))
      × (min n (offset + record_chunk_runes) ≤ offset + record_chunk_runes)
      × (min n (offset + record_chunk_runes) ≤ n)
chunk_facts n offset h = (ground arith, ground arith, ground arith)

ltb→lt : (a b : ℕ) → ltb a b ≡ true → a < b
ltb→lt a b h = ground arith

not_ltb→le : (a b : ℕ) → ltb a b ≡ false → b ≤ a
not_ltb→le a b h = ground arith

not_leb→lt : (a b : ℕ) → leb a b ≡ false → b < a
not_leb→lt a b h = ground arith

-- A chunk and what is after it.
chunk_split :
    (runes : List ℕ) (offset last : ℕ)
    → offset ≤ last
    → (take (last - offset) (drop offset runes) ++ drop last runes) ≡ drop offset runes
chunk_split runes offset last h =
    let there : last ≡ offset + (last - offset) = omega arith in
    ap (λ n. take (last - offset) (drop offset runes) ++ drop n runes) there
    ∙ ap (λ l. take (last - offset) (drop offset runes) ++ l)
        (drop_plus offset (last - offset) runes)
    ∙ take_split (last - offset) (drop offset runes)

module _ (sha : List ℕ → String) where
  pub page_found :
      (runes : List ℕ) (total index offset : ℕ)
      → index < total
      → offset < length runes
      → page_record sha runes (pos total) (pos index) (pos offset)
        ≡ some (page_of sha runes total index offset)
  unfolding page_record page_at
  page_found runes total index offset h k = ground arith

  read_from :
      (k : ℕ) (runes : List ℕ) (total index offset : ℕ)
      → index < total
      → offset < length runes
      → length runes ≤ offset + k
      → read_pages sha k runes total index offset ≡ drop offset runes
  unfolding read_pages
  read_from zero runes total index offset h lt fuel = absurd (omega arith)
  read_from (suc k) runes total index offset h lt fuel =
      let last = chunk_end runes offset in
      let (more, _, within) = chunk_facts (length runes) offset lt in
      let split = chunk_split runes offset last (omega arith) in
      rw (page_found runes total index offset h lt, read_pages)
        (elim (Bool-cases (ltb last (length runes))) [
          | inl e ↦ rw e (
              ap (λ l. take (last - offset) (drop offset runes) ++ l)
                (read_from k runes total index last h (ltb→lt _ _ e) (omega arith))
              ∙ split)
          | inr e ↦ rw e (
              ap (λ l. take (last - offset) (drop offset runes) ++ l)
                (sym (drop_all runes last (not_ltb→le _ _ e)))
              ∙ split)
        ])

  content_bound :
      (runes : List ℕ) (total index : ℕ) (offset : ℤ) (page : RecordPage)
      → page_record sha runes (pos total) (pos index) offset ≡ some page
      → length page.content ≤ record_chunk_runes
  unfolding page_record page_at
  content_bound runes total index (negsuc n) page e = absurd (ground arith)
  content_bound runes total index (pos offset) page e =
      elim (Bool-cases (leb total index || leb (length runes) offset)) [
        | inl k ↦ absurd (let z = rw k at e in ground arith)
        | inr k ↦
            let same = some-injective (page_of sha runes total index offset) page (rw k at e) in
            let last = chunk_end runes offset in
            let le = length-take (last - offset) (drop offset runes) in
            let (_, outside) = or_false (leb total index) _ k in
            let (_, at_most, _) = chunk_facts (length runes) offset (not_leb→lt _ _ outside) in
            rw (sym same) (omega arith)
      ]

-- Reading a record that is not empty from its start, by following `next_offset`, gives the record: as many
-- calls as the record has characters are enough. A page that is given, at any offset, has at most 4096
-- characters.
pub page_record-read :
    (sha : List ℕ → String) (runes : List ℕ) (total index : ℕ) (offset : ℤ) (page : RecordPage)
    → index < total
    → 0 < length runes
    → page_record sha runes (pos total) (pos index) offset ≡ some page
    → (read_pages sha (length runes) runes total index 0 ≡ runes)
      × (length page.content ≤ record_chunk_runes)
page_record-read sha runes total index offset page h lt e = (
  read_from sha (length runes) runes total index 0 h lt (omega arith) ∙ drop_zero runes,
  content_bound sha runes total index offset page e,
)
