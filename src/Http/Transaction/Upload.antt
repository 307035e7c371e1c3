-- ===== src/Http/Transaction/Upload.antt =====
-- curl's reads deliver the request's data.
use Prim.Native.Nat.{min}
use iexapitest.Base.{
  Bool-cases, Exec, List, Option, Result, [], ap, arith, drop, drop-drop, drop_all, false,
  if◌then◌else◌, inl, inr, leb, length, length-drop, ltb, ok, pure, refl, some, suc, sym, take,
  take-add, take_all, zero, ℕ, ◌%◌, ◌*◌, ◌++◌, ◌+◌, ◌-◌, ◌<◌, ◌==◌, ◌>>=◌, ◌∙◌, ◌∷◌, ◌≡◌, ◌≤◌,
}
use iexapitest.Http.Streams.{Stream, read, size_mod, tell}
use iexapitest.Http.Transaction.{Transaction, read_callback, read_from, with_body}

-- A transaction that can upload: its size is the one that was computed from the stream.
pub record Uploads {Handle : Type 0} (t : Transaction Handle) (s : Stream) : Type 0 where
  pub body : t.http_transaction.request.body ≡ some s
  pub whole : s.failed ≡ false
  pub size : t.upload_data_size ≡ length s.content
  pub fits : length s.content < size_mod
  pub inside : s.pos ≤ length s.content

-- The room in a buffer of `elements_count` elements.
abbrev pub room : ℕ × ℕ → ℕ
room (element_size, elements_count) = elements_count * element_size % size_mod

-- What is still to be sent.
abbrev pub left : Stream → List ℕ
left s = drop s.pos s.content

-- The stream behind a read of `n` bytes.
abbrev pub advanced : ℕ → Stream → Stream
advanced n s = record s { pos = s.pos + min n (length s.content - s.pos) }

read-left :
    (s : Stream) (n : ℕ)
    → s.failed ≡ false
    → s.pos ≤ length s.content
    → n ≤ length s.content - s.pos
    → read n s ≡ (take n (left s), record s { pos = s.pos + n })
unfolding read
read-left s n whole inside h = ground (arith, length-drop s.pos s.content)

bytes_left :
    (s : Stream)
    → s.failed ≡ false
    → length s.content < size_mod
    → s.pos ≤ length s.content
    → (length s.content + size_mod - tell s) % size_mod ≡ length s.content - s.pos
unfolding tell
bytes_left s whole fits inside = rw whole (omega arith)

min_size : ℕ → ℕ → ℕ
min_size max_size left_size = if ltb max_size left_size then max_size else left_size

min_size-eq-min : (m n : ℕ) → min_size m n ≡ min m n
unfolding min_size
min_size-eq-min m n = ground arith

take-min : (n : ℕ) (xs : List ℕ) → take (min n (length xs)) xs ≡ take n xs
take-min n xs = elim (Bool-cases (leb n (length xs))) [
  | inl below ↦ ap (λ k. take k xs) (ground arith)
  | inr above ↦
      ap (λ k. take k xs) (ground arith)
      ∙ take_all (length xs) xs (omega arith)
      ∙ sym (take_all n xs (ground arith))
]

take-left :
    (s : Stream) (n : ℕ) → take (min n (length s.content - s.pos)) (left s) ≡ take n (left s)
take-left s n = rw (length-drop s.pos s.content) at (take-min n (left s))

sent : ℕ → Stream → Result (List ℕ × Option Stream)
sent n s = ok (take n (left s), some (advanced n s))

read_by : ℕ → Stream → Result (List ℕ × Option Stream)
read_by k s = ok (take k (left s), some (record s { pos = s.pos + k }))

settle : (s : Stream) (k : ℕ) → (if k == 0 then ok ([], some s) else read_by k s) ≡ read_by k s
unfolding read_by
settle s zero = ap (λ n. ok ([], some (record s { pos = n }))) (omega arith)
settle s (suc k) = ground arith

transfer :
    (s : Stream) (n k : ℕ)
    → s.failed ≡ false
    → s.pos ≤ length s.content
    → k ≡ min n (length s.content - s.pos)
    → (if k == 0 then ok ([], some s) else ok ((read k s).0, some (read k s).1)) ≡ sent n s
unfolding sent read_by
transfer s n k whole inside e =
    rw (sent, ← take-left s n, ← e, read-left s k whole inside (omega arith)) (settle s k)

read_from-left :
    (s : Stream) (element_size elements_count : ℕ)
    → s.failed ≡ false
    → length s.content < size_mod
    → s.pos ≤ length s.content
    → read_from (some s) (length s.content) element_size elements_count
      ≡ ok (
        take (room (element_size, elements_count)) (left s),
        some (advanced (room (element_size, elements_count)) s),
      )
unfolding read_from min_size sent
read_from-left s element_size elements_count whole fits inside =
    rw (read_from, bytes_left s whole fits inside)
      (transfer s (room (element_size, elements_count)) _ whole inside
        (min_size-eq-min (room (element_size, elements_count)) (length s.content - s.pos)))

-- What one read of curl's gets, and the stream behind it.
pub read_callback-left :
    {Handle : Type 0} (t : Transaction Handle) (s : Stream) (element_size elements_count : ℕ)
    → Uploads t s
    → read_callback element_size elements_count t ≡ (
      ok (take (room (element_size, elements_count)) (left s)),
      with_body (some (advanced (room (element_size, elements_count)) s)) t,
    )
unfolding read_callback
read_callback-left t s element_size elements_count u = rw (
  u.body,
  read_callback,
  u.size,
  read_from-left s element_size elements_count u.whole u.fits u.inside,
)

advanced-Uploads :
    {Handle : Type 0} (t : Transaction Handle) (s : Stream) (n : ℕ)
    → Uploads t s
    → Uploads (with_body (some (advanced n s)) t) (advanced n s)
unfolding with_body
advanced-Uploads t s n u = record {
  body = refl;
  whole = u.whole;
  size = u.size;
  fits = u.fits;
  inside = omega (arith, u.inside);
}

-- A run of reads into buffers of the given sizes: the bytes that they deliver.
pub deliver : {Handle : Type 0} → List (ℕ × ℕ) → Exec (Transaction Handle) (List ℕ)
deliver [] t = (ok [], t)
deliver ((element_size, elements_count) ∷ buffers) t =
    (read_callback element_size elements_count >>= λ bytes.
    deliver buffers >>= λ rest. pure (bytes ++ rest))
      t

abbrev pub total_room : List (ℕ × ℕ) → ℕ
total_room [] = 0
total_room (b ∷ buffers) = room b + total_room buffers

drop-min : (n : ℕ) (xs : List ℕ) → drop (min n (length xs)) xs ≡ drop n xs
drop-min n xs = elim (Bool-cases (leb n (length xs))) [
  | inl below ↦ ap (λ k. drop k xs) (ground arith)
  | inr above ↦
      ap (λ k. drop k xs) (ground arith)
      ∙ drop_all (length xs) xs (omega arith)
      ∙ sym (drop_all n xs (ground arith))
]

left-advanced : (n : ℕ) (s : Stream) → left (advanced n s) ≡ drop n (left s)
left-advanced n s =
    sym (drop-drop s.pos (min n (length s.content - s.pos)) s.content)
    ∙ (rw (length-drop s.pos s.content) at (drop-min n (left s)))

deliver-take :
    {Handle : Type 0} (buffers : List (ℕ × ℕ)) (t : Transaction Handle) (s : Stream)
    → Uploads t s
    → (deliver buffers t).0 ≡ ok (take (total_room buffers) (left s))
unfolding deliver
deliver-take [] t s u = refl
deliver-take (b ∷ buffers) t s u =
    rw
      (
        read_callback-left t s b.0 b.1 u,
        deliver-take buffers _ (advanced (room b) s) (advanced-Uploads t s (room b) u),
        left-advanced (room b) s,
      )
      (ap ok (sym (take-add (room b) (total_room buffers) (left s))))

-- However curl sizes its buffers, the reads deliver the data in order, each byte once, up to the sum
-- of the sizes; buffers that have room for all of it get all of it.
pub deliver-left :
    {Handle : Type 0} (buffers : List (ℕ × ℕ)) (t : Transaction Handle) (s : Stream)
    → Uploads t s
    → ((deliver buffers t).0 ≡ ok (take (total_room buffers) (left s)))
      × (length (left s) ≤ total_room buffers → (deliver buffers t).0 ≡ ok (left s))
deliver-left buffers t s u = (
  deliver-take buffers t s u,
  λ h. deliver-take buffers t s u ∙ ap ok (take_all (total_room buffers) (left s) h),
)
