-- ===== src/Rdt/Apps/Chunks.antt =====
-- The blocks in which sender.cpp sends a file.
use networking_projects.Base.{
  ℕ, zero, suc, ◌%◌, ◌<◌, ◌≡◌, ◌∙◌, ap, List, [], ◌∷◌, ◌++◌, append-nil, arith, ltb, length, take,
  drop, length-drop, length-take, take-append-drop, Bool-cases, inl, inr, le_of_ltb, subst,
}
use networking_projects.Rdt.Segment.{max_data_size}
use networking_projects.Rdt.Apps.{chunks, file_chunks}

abbrev pub concat : List (List ℕ) → List ℕ
concat [] = []
concat (c ∷ cs) = c ++ concat cs

-- Every block but the last is full, and the last holds `n` bytes, fewer than a full one.
abbrev pub EndsWith : ℕ → List (List ℕ) → Type 0
EndsWith n [] = ⊥
EndsWith n (c ∷ []) = (length c ≡ n) × (n < max_data_size)
EndsWith n (c ∷ d ∷ cs) = (length c ≡ max_data_size) × EndsWith n (d ∷ cs)

concat-chunks :
    (fuel : ℕ) (contents : List ℕ)
    → length contents < fuel
    → concat (chunks fuel contents) ≡ contents
unfolding chunks
concat-chunks zero contents h = absurd (omega arith)
concat-chunks (suc fuel) contents h = elim (Bool-cases (ltb (length contents) max_data_size)) [
  | inl short ↦ rw short (append-nil contents)
  | inr long ↦ rw long (
      ap (λ l. take max_data_size contents ++ l)
        (concat-chunks fuel (drop max_data_size contents)
          (omega (arith, length-drop max_data_size contents, le_of_ltb _ _ long)))
      ∙ take-append-drop max_data_size contents)
]

EndsWith-cons :
    (n : ℕ) (c : List ℕ) (cs : List (List ℕ))
    → length c ≡ max_data_size
    → EndsWith n cs
    → EndsWith n (c ∷ cs)
EndsWith-cons n c [] h e = absurd e
EndsWith-cons n c (d ∷ cs) h e = (h, e)

EndsWith-chunks :
    (fuel : ℕ) (contents : List ℕ)
    → length contents < fuel
    → EndsWith (length contents % max_data_size) (chunks fuel contents)
unfolding chunks
EndsWith-chunks zero contents h = absurd (omega arith)
EndsWith-chunks (suc fuel) contents h = elim (Bool-cases (ltb (length contents) max_data_size)) [
  | inl short ↦ rw short (ground arith)
  | inr long ↦
      let left : ℕ = length (drop max_data_size contents) in
      let cut = length-drop max_data_size contents in
      let over = le_of_ltb _ _ long in
      rw long (
        EndsWith-cons _ (take max_data_size contents) (chunks fuel (drop max_data_size contents))
          (omega (arith, length-take max_data_size contents, over))
          (subst (λ n. EndsWith n (chunks fuel (drop max_data_size contents)))
            (let same : left % max_data_size ≡ length contents % max_data_size =
                omega (arith, cut, over) in
              same)
            (EndsWith-chunks fuel (drop max_data_size contents) (omega (arith, cut, over)))))
]

-- The blocks that the sender sends make up the file, in order; every block but the last holds
-- MAX_DATA_SIZE bytes, and the last the remainder of the file's size by that, which is none when it
-- divides the size.
pub file_chunks_lem :
    (contents : List ℕ)
    → (concat (file_chunks contents) ≡ contents)
      × EndsWith (length contents % max_data_size) (file_chunks contents)
unfolding file_chunks
file_chunks_lem contents = (
  concat-chunks (suc (length contents)) contents (omega arith),
  EndsWith-chunks (suc (length contents)) contents (omega arith),
)
