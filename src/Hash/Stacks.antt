-- ===== src/Hash/Stacks.antt =====
-- udt4/src/queue.cpp: `CHash` against one stack of sockets for each id.
use udt_patch_for_epoll.Prelude.{
  ℕ, ◌%◌, ◌≡◌, ◌≢◌, refl, sym, ap, ◌∙◌, false, Option, none, some, List, [], ◌∷◌, ◌==◌,
  if◌then◌else◌, arith, Bool-cases, inl, inr,
}
use udt_patch_for_epoll.Hash.{
  Bucket, Hash, new_hash, place, find_id, lookup_id, insert_id, unlink, remove_id,
}

-- The sockets of an id in a bucket, the latest first.
unfoldable of_id : ℕ → List Bucket → List ℕ
of_id id [] = []
of_id id (b ∷ bs) = let rest = of_id id bs in if id == b.id then b.udt ∷ rest else rest

abbrev stack_of : Hash → ℕ → List ℕ
stack_of h id = of_id id (h.bucket (place h id))

abbrev pub top : List ℕ → Option ℕ
top [] = none
top (u ∷ us) = some u

abbrev pub below : List ℕ → List ℕ
below [] = []
below (u ∷ us) = us

find_id-top : (id : ℕ) (bs : List Bucket) → find_id id bs ≡ top (of_id id bs)
unfolding find_id of_id
find_id-top id [] = refl
find_id-top id (b ∷ bs) = elim (Bool-cases (id == b.id)) [
  | inl e ↦ rw (e) refl
  | inr e ↦ rw (e) (find_id-top id bs)
]

unlinked :
    (id w x u : ℕ) (us : List ℕ)
    → id ≡ x
    → us
      ≡ (if id == w then below (if w == x then u ∷ us else us) else if w == x then u ∷ us else us)
unlinked id w x u us e = ground (arith, e)

kept :
    (id w x u : ℕ) (us vs : List ℕ)
    → id ≢ x
    → vs ≡ (if id == w then below us else us)
    → (if w == x then u ∷ vs else vs)
      ≡ (if id == w then below (if w == x then u ∷ us else us) else if w == x then u ∷ us else us)
kept id w x u us vs n e = grind (arith, n, e)

of_id-unlink :
    (id w : ℕ) (bs : List Bucket)
    → of_id w (unlink id bs) ≡ (if id == w then below (of_id w bs) else of_id w bs)
unfolding unlink of_id
of_id-unlink id w [] = ground arith
of_id-unlink id w (b ∷ bs) = elim (Bool-cases (id == b.id)) [
  | inl e ↦ rw (e) (unlinked id w b.id b.udt (of_id w bs) (ground (arith, e)))
  | inr e ↦ rw (e) (
      kept id w b.id b.udt (of_id w bs) (of_id w (unlink id bs)) (ground (arith, e))
        (of_id-unlink id w bs))
]

-- A call that changes the table.
pub data Call : Type 0 where
  inserted : ℕ → ℕ → Call
  removed : ℕ → Call

abbrev pub call : Hash → Call → Hash
call h (inserted id u) = insert_id h id u
call h (removed id) = remove_id h id

unfoldable pub calls : Hash → List Call → Hash
calls h [] = h
calls h (c ∷ cs) = calls (call h c) cs

-- What a call makes of the stack of the id `w`.
abbrev pub pushed : ℕ → List ℕ → Call → List ℕ
pushed w us (inserted id u) = if id == w then u ∷ us else us
pushed w us (removed id) = if id == w then below us else us

unfoldable pub stacked : ℕ → List ℕ → List Call → List ℕ
stacked w us [] = us
stacked w us (c ∷ cs) = stacked w (pushed w us c) cs

same_place :
    (id w u : ℕ) {us vs : List ℕ}
    → us ≡ vs
    → (if w == id then u ∷ us else us) ≡ (if id == w then u ∷ vs else vs)
same_place id w u e = ground (arith, e)

apart :
    (id w n : ℕ) (us vs : List ℕ) → (id % n == w % n) ≡ false → (if id == w then us else vs) ≡ vs
apart id w n us vs e = grind (arith, e)

stack_of-call : (h : Hash) (c : Call) (w : ℕ) → stack_of (call h c) w ≡ pushed w (stack_of h w) c
unfolding insert_id remove_id of_id
stack_of-call h (inserted id u) w = elim (Bool-cases (id % h.hash_size == w % h.hash_size)) [
  | inl e ↦
      let z : id % h.hash_size ≡ w % h.hash_size = ground (arith, e) in
      rw (e) (same_place id w u (ap (λ i. of_id w (h.bucket i)) z))
  | inr e ↦ rw (e) (sym (apart id w h.hash_size (u ∷ stack_of h w) (stack_of h w) e))
]
stack_of-call h (removed id) w = elim (Bool-cases (id % h.hash_size == w % h.hash_size)) [
  | inl e ↦
      let z : id % h.hash_size ≡ w % h.hash_size = ground (arith, e) in
      rw (e) (
        of_id-unlink id w (h.bucket (place h id))
        ∙ ap (λ i. if id == w then below (of_id w (h.bucket i)) else of_id w (h.bucket i)) z)
  | inr e ↦ rw (e) (sym (apart id w h.hash_size (below (stack_of h w)) (stack_of h w) e))
]

stack_of-calls :
    (h : Hash) (cs : List Call) (w : ℕ) → stack_of (calls h cs) w ≡ stacked w (stack_of h w) cs
unfolding calls stacked
stack_of-calls h [] w = refl
stack_of-calls h (c ∷ cs) w =
    stack_of-calls (call h c) cs w ∙ ap (λ us. stacked w us cs) (stack_of-call h c w)

-- After any calls of `insert` and `remove` on a new table `lookup` of an id gives the socket that is on
-- top of the stack that one gets by replaying the calls with that id, and a null pointer if it is empty.
pub lookup_id-calls :
    (size : ℕ) (cs : List Call) (w : ℕ)
    → lookup_id (calls (new_hash size) cs) w ≡ top (stacked w [] cs)
unfolding lookup_id new_hash of_id
lookup_id-calls size cs w =
    let h = calls (new_hash size) cs in
    find_id-top w (h.bucket (place h w)) ∙ ap top (stack_of-calls (new_hash size) cs w)
