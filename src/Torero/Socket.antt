-- ===== src/Torero/Socket.antt =====
-- ClientSocket.cpp: data sent to a client until all of it is taken. The answers of `send` are a list:
-- the number of bytes that it may take, or `none` for -1.
use networking_projects.Base.{
  ℕ, ◌+◌, ◌-◌, ◌≤◌, ◌<◌, ◌≡◌, refl, ap, ◌∙◌, Option, none, some, List, [], ◌∷◌, ◌++◌, All, arith,
  length, take, drop, append_assoc, take-append-drop, length-drop,
}

-- How sendData ends: it returns, with the answers that are left; it throws; or it is still sending
-- after the last answer.
pub data Ending : Type 0 where
  returned : List (Option ℕ) → Ending
  thrown unfinished : Ending

-- The loop, by the data that is left to send: how it ends, and the bytes that were taken.
unfoldable pub send_rest : List ℕ → List (Option ℕ) → Ending × List ℕ
send_rest [] answers = (returned answers, [])
send_rest (b ∷ bs) [] = (unfinished, [])
send_rest (b ∷ bs) (none ∷ answers) = (thrown, [])
send_rest (b ∷ bs) (some n ∷ answers) =
    let later = send_rest (drop n (b ∷ bs)) answers in (later.0, take n (b ∷ bs) ++ later.1)

unfoldable pub send_data : List ℕ → List (Option ℕ) → Ending × List ℕ
send_data bytes answers = send_rest bytes answers

-- What is left to send when the loop ends: nothing if it returns.
abbrev pub Leaves : Ending → List ℕ → Type 0
Leaves (returned answers) left = left ≡ []
Leaves thrown left = 0 < length left
Leaves unfinished left = 0 < length left

-- The answer takes a byte or more.
abbrev pub Takes : Option ℕ → Type 0
Takes none = ⊥
Takes (some n) = 0 < n

-- Whatever the answers are, the bytes taken are the first of the data, in order; all of them when
-- sendData returns, and not all of them when it throws or is still sending.
pub send_data-Leaves :
    (bytes : List ℕ) (answers : List (Option ℕ))
    → (left : List ℕ) × ((send_data bytes answers).1 ++ left ≡ bytes)
      × Leaves (send_data bytes answers).0 left
unfolding send_data send_rest
send_data-Leaves [] answers = ([], refl, refl)
send_data-Leaves (b ∷ bs) [] = (b ∷ bs, refl, omega arith)
send_data-Leaves (b ∷ bs) (none ∷ answers) = (b ∷ bs, refl, omega arith)
send_data-Leaves (b ∷ bs) (some n ∷ answers) =
    let later = send_data-Leaves (drop n (b ∷ bs)) answers in
    (
      later.0,
      append_assoc (take n (b ∷ bs)) (send_data (drop n (b ∷ bs)) answers).1 later.0
          ∙ ap (λ l. take n (b ∷ bs) ++ l) later.1
          ∙ take-append-drop n (b ∷ bs),
      later.2,
    )

-- When each answer takes a byte or more, and there are as many as bytes, each byte uses up one of
-- them at most.
pub send_data-uses :
    (bytes : List ℕ) (answers : List (Option ℕ))
    → All Takes answers
    → length bytes ≤ length answers
    → (rest : List (Option ℕ)) × (send_data bytes answers ≡ (returned rest, bytes))
      × All Takes rest
      × (length answers ≤ length rest + length bytes)
unfolding send_data send_rest
send_data-uses [] answers takes enough = (answers, refl, takes, omega arith)
send_data-uses (b ∷ bs) [] takes enough = absurd (omega arith)
send_data-uses (b ∷ bs) (none ∷ answers) takes enough = absurd takes.0
send_data-uses (b ∷ bs) (some n ∷ answers) takes enough =
    let positive : 0 < n = takes.0 in
    let left : length (drop n (b ∷ bs)) ≡ length (b ∷ bs) - n = length-drop n (b ∷ bs) in
    let (rest, runs, more, used) = send_data-uses (drop n (b ∷ bs)) answers takes.1 (omega arith) in
    (
      rest,
      ap (λ r. (r.0, take n (b ∷ bs) ++ r.1)) runs
          ∙ ap (λ l. (returned rest, l)) (take-append-drop n (b ∷ bs)),
      more,
      omega arith,
    )

-- When each answer takes a byte or more, and there are as many answers as bytes, sendData returns,
-- and the bytes taken are the data.
send_data-returns :
    (bytes : List ℕ) (answers : List (Option ℕ))
    → All Takes answers
    → length bytes ≤ length answers
    → (rest : List (Option ℕ)) × (send_data bytes answers ≡ (returned rest, bytes))
send_data-returns bytes answers takes enough =
    let (rest, runs, more, used) = send_data-uses bytes answers takes enough in (rest, runs)
