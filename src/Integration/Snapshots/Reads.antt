-- ===== src/Integration/Snapshots/Reads.antt =====
-- Chains of reads of src/reth_integration.rs: time passes, and a chain that succeeds succeeded in
-- each of its parts.
use reth_statefeed.Prelude.{ℕ, ◌+◌, ◌≤◌, ◌≡◌, Result, ok, err, refl, arith}
use reth_statefeed.Integration.Snapshots.{
  SnapshotError, Read, continue, ◌>>=◌, at, attempt, fail, lift,
}
use reth_statefeed.Prelude.{Bool, true, false, if◌then◌else◌}

-- Reads that end no earlier than they start.
abbrev pub IsForward : {A : Type 0} → Read A → Type 0
IsForward m = (t : ℕ) → t ≤ (m t).1

pub IsForward->>= :
    {A B : Type 0} (m : Read A) (f : A → Read B)
    → IsForward m
    → ((a : A) → IsForward (f a))
    → IsForward (m >>= f)
unfolding ◌>>=◌
IsForward->>= {A = A} {B = B} m f forward next t = after (m t) (forward t)
  where
    after : (r : Result SnapshotError A × ℕ) → t ≤ r.1 → t ≤ (continue f r).1
    after (err e, t') h = h
    after (ok a, t') h = omega (arith, next a t')

pub IsForward-at : {A : Type 0} (answer : ℕ → Result SnapshotError A) → IsForward (at answer)
IsForward-at answer t = omega arith

pub IsForward-if :
    {A : Type 0} (b : Bool) (m k : Read A)
    → IsForward m
    → IsForward k
    → IsForward (if b then m else k)
IsForward-if true m k hm hk = hm
IsForward-if false m k hm hk = hk

pub >>=-eq-ok-read :
    {A B : Type 0} (m : Read A) (f : A → Read B) (t : ℕ) {b : B} {end : ℕ}
    → (m >>= f) t ≡ (ok b, end)
    → (a : A) × (t' : ℕ) × (m t ≡ (ok a, t')) × (f a t' ≡ (ok b, end))
unfolding ◌>>=◌
>>=-eq-ok-read {A = A} {B = B} m f t {b = b} {end = end} h = after (m t) refl h
  where
    after :
        (r : Result SnapshotError A × ℕ)
        → m t ≡ r
        → continue f r ≡ (ok b, end)
        → (a : A) × (t' : ℕ) × (m t ≡ (ok a, t')) × (f a t' ≡ (ok b, end))
    after (err e, t') same h = cc
    after (ok a, t') same h = (a, t', same, h)

pub attempt-eq-ok :
    {A : Type 0} (m : Read A) (t : ℕ) {r : Result SnapshotError A} {end : ℕ}
    → attempt m t ≡ (ok r, end)
    → m t ≡ (r, end)
attempt-eq-ok {A = A} m t {r = r} {end = end} h = of_pair (m t) h
  where
    of_pair :
        (p : Result SnapshotError A × ℕ)
        → ◌≡◌ {A = Result SnapshotError (Result SnapshotError A) × ℕ} (ok p.0, p.1) (ok r, end)
        → p ≡ (r, end)
    of_pair (p, t') h = cc

pub if-eq-ok :
    {A : Type 0} (b : Bool) (m : Read A) (e : SnapshotError) (t : ℕ) {a : A} {end : ℕ}
    → (if b then m else fail e) t ≡ (ok a, end)
    → (b ≡ true) × (m t ≡ (ok a, end))
if-eq-ok true m e t h = (refl, h)
if-eq-ok false m e t h = cc

pub at-eq-ok :
    {A B : Type 0} (answer : ℕ → Result SnapshotError A) (f : A → Read B) (t : ℕ) {b : B} {end : ℕ}
    → (at answer >>= f) t ≡ (ok b, end)
    → (a : A) × (answer t ≡ ok a) × (f a (t + 1) ≡ (ok b, end))
unfolding ◌>>=◌
at-eq-ok {A = A} {B = B} answer f t {b = b} {end = end} h = after (answer t) refl h
  where
    after :
        (r : Result SnapshotError A)
        → answer t ≡ r
        → continue f (r, t + 1) ≡ (ok b, end)
        → (a : A) × (answer t ≡ ok a) × (f a (t + 1) ≡ (ok b, end))
    after (err e) same h = cc
    after (ok a) same h = (a, same, h)

pub lift-eq-ok :
    {A B : Type 0} (r : Result SnapshotError A) (f : A → Read B) (t : ℕ) {b : B} {end : ℕ}
    → (lift r >>= f) t ≡ (ok b, end)
    → (a : A) × (r ≡ ok a) × (f a t ≡ (ok b, end))
unfolding ◌>>=◌
lift-eq-ok (err e) f t h = cc
lift-eq-ok (ok a) f t h = (a, refl, h)
