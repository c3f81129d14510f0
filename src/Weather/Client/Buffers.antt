-- ===== src/Weather/Client/Buffers.antt =====
-- recv_line of client.c, for an answer and for a failure, with the array that it ends.
use networking_projects.Base.{
  ℕ, suc, ◌<◌, ◌≡◌, ◌∙◌, refl, ap, true, false, ◌==◌, Option, none, some, List, [], ◌∷◌, ◌++◌,
  arith, length, length-append, length-take, length-replicate, take, take-append, take_all, drop,
  zero, ◌<◌, ltb, Bool-cases, inl, inr, All,
}
use networking_projects.Base.Int.{pos}
use networking_projects.Base.Text.{up_to, c_string}
use networking_projects.Weather.State.{Action, closed, ok, halt, undefined}
use networking_projects.Weather.Client.{line_buffer, store_at, recv_line}
use networking_projects.Weather.Client.Visits.{IsLine, at}

up_to-IsLine : (bytes : List ℕ) → All (λ c. (c == 0) ≡ false) bytes → up_to 0 bytes ≡ bytes
unfolding up_to
up_to-IsLine [] h = refl
up_to-IsLine (c ∷ bytes) h = rw (h.0, up_to) (ap (λ bs. c ∷ bs) (up_to-IsLine bytes h.1))

up_to-stored : (text junk : List ℕ) → up_to 0 (text ++ 0 ∷ junk) ≡ up_to 0 text
unfolding up_to
up_to-stored [] junk = refl
up_to-stored (c ∷ text) junk = elim (Bool-cases (c == 0)) [
  | inl ends ↦ rw (ends, up_to) refl
  | inr goes ↦ rw (goes, up_to) (ap (λ l. c ∷ l) (up_to-stored text junk))
]

drop-suc :
    (n : ℕ) (buffer : List ℕ)
    → n < length buffer
    → (c : ℕ) × (junk : List ℕ) × (drop n buffer ≡ c ∷ junk)
drop-suc n [] h = absurd (omega arith)
drop-suc zero (c ∷ buffer) h = (c, buffer, refl)
drop-suc (suc n) (c ∷ buffer) h = drop-suc n buffer (omega arith)

drop-stored :
    (text : List ℕ) (c : ℕ) (junk : List ℕ) → drop (suc (length text)) (text ++ c ∷ junk) ≡ junk
drop-stored [] c junk = refl
drop-stored (d ∷ text) c junk = drop-stored text c junk

-- The element behind the text is in the array.
store_at-append :
    (text : List ℕ) (c : ℕ) (junk : List ℕ)
    → store_at (pos (length text)) 0 (text ++ c ∷ junk) ≡ some (text ++ 0 ∷ junk)
unfolding store_at
store_at-append text c junk =
    let room : ltb (length text) (length (text ++ c ∷ junk)) ≡ true =
      ground (arith, length-append text (c ∷ junk)) in
    rw (room, take-append text (c ∷ junk), drop-stored text c junk) refl

-- An answer other than -1 is in the buffer, as far as there is room, and a NUL after it.
pub recv_line-some :
    (fd : Option ℕ) (buffer bytes : List ℕ) (room calls : ℕ) (answers : List (Option (List ℕ)))
    (log : List Action)
    → length buffer ≡ suc room
    → (n : ℕ) × (filled : List ℕ) × (recv_line fd buffer
          (suc room)
          (at calls (some bytes ∷ answers) log)
        ≡ ok (pos n, filled) (at calls answers log))
      × (c_string filled ≡ c_string (take room bytes))
unfolding recv_line
recv_line-some fd buffer bytes room calls answers log size =
    let got = take room bytes in
    let (c, junk, left) =
      drop-suc (length got) buffer (omega (arith, length-take room bytes, size)) in
    (length got, got ++ 0 ∷ junk, rw (left, store_at-append got c junk) refl, up_to-stored got junk)

pub length-line_buffer : length line_buffer ≡ 256
unfolding line_buffer
length-line_buffer = length-replicate {A = ℕ} 256 0

pub recv_line-IsLine :
    (fd : Option ℕ) (bytes : List ℕ) (calls : ℕ) (answers : List (Option (List ℕ)))
    (log : List Action)
    → IsLine bytes
    → (n : ℕ) × (filled : List ℕ) × (recv_line fd line_buffer 256
          (at calls (some bytes ∷ answers) log)
        ≡ ok (pos n, filled) (at calls answers log))
      × (c_string filled ≡ bytes)
recv_line-IsLine fd bytes calls answers log h =
    let (n, filled, runs, text) =
      recv_line-some fd line_buffer bytes 255 calls answers log length-line_buffer in
    (
      n,
      filled,
      runs,
      text ∙ ap (up_to 0) (take_all 255 bytes h.fits_in) ∙ up_to-IsLine bytes h.solid,
    )

-- After -1 the NUL would be stored before the array.
pub recv_line-none :
    (fd : Option ℕ) (buffer : List ℕ) (room calls : ℕ) (answers : List (Option (List ℕ)))
    (log : List Action)
    → recv_line fd buffer (suc room) (at calls (none ∷ answers) log)
      ≡ halt undefined (at calls answers (closed fd ∷ log))
unfolding recv_line store_at
recv_line-none fd buffer room calls answers log = refl
