-- ===== src/Net/TcpServer/RoundRobin.antt =====
-- src/net/EventLoopThreadPool.cc: every loop gets its turn.
use a_tiny_network_library.Common.{
  ℕ, zero, suc, ◌+◌, ◌-◌, ◌<◌, ◌≡◌, refl, ap, sym, ◌∙◌, List, [], ◌∷◌, ◌++◌, Option, none, some,
  if◌then◌else◌, leb, length, take, drop, drop-all, get_elem?, ◌>>=◌, arith, le→leb, lt→leb,
}
use a_tiny_network_library.Net.TcpServer.{EventLoopThreadPool, next_of, get_next_loop}

-- The loops of the next calls of `getNextLoop`, and the pool afterwards.
abbrev pub turns : ℕ → EventLoopThreadPool → Option (List ℕ × EventLoopThreadPool)
turns zero p = some ([], p)
turns (suc k) p = do
  (loop, p') ← get_next_loop p
  (loops, p'') ← turns k p'
  some (loop ∷ loops, p'')

pub get_elem-drop :
    (ls : List ℕ) (n : ℕ)
    → n < length ls
    → (x : ℕ) × (get_elem? ls n ≡ some x) × (drop n ls ≡ x ∷ drop (suc n) ls)
get_elem-drop [] n h = absurd (omega arith)
get_elem-drop (x ∷ xs) zero h = (x, refl, refl)
get_elem-drop (x ∷ xs) (suc n) h = get_elem-drop xs n (omega arith)

abbrev at : EventLoopThreadPool → ℕ → EventLoopThreadPool
at p n = record p { next = n }

pub next_of-eq :
    (b : ℕ) (ls : List ℕ) (n x : ℕ)
    → get_elem? ls n ≡ some x
    → next_of b ls n ≡ some (x, if leb (length ls) (suc n) then 0 else suc n)
unfolding next_of
next_of-eq b [] n x e = absurd (ground arith)
next_of-eq b (l ∷ ls) n x e = rw e

get_next_loop-eq :
    (p : EventLoopThreadPool) (n x : ℕ)
    → get_elem? p.loops n ≡ some x
    → get_next_loop (at p n) ≡ some (x, at p (if leb (length p.loops) (suc n) then 0 else suc n))
unfolding get_next_loop
get_next_loop-eq p n x e = rw (next_of-eq p.base_loop p.loops n x e)

-- Calls that do not come to the end of the loops.
turns_within :
    (k : ℕ) (p : EventLoopThreadPool) (n : ℕ)
    → n + k < length p.loops
    → turns k (at p n) ≡ some (take k (drop n p.loops), at p (n + k))
turns_within zero p n h = ap (λ m. some ([], at p m)) (omega arith)
turns_within (suc k) p n h =
    let (x, e, d) = get_elem-drop p.loops n (omega (arith, h)) in
    let g : get_next_loop (at p n) ≡ some (x, at p (suc n)) =
      get_next_loop-eq p n x e
      ∙ ap (λ b. some (x, at p (if b then 0 else suc n)))
          (lt→leb (length p.loops) (suc n) (omega (arith, h))) in
    rw (g, turns_within k p (suc n) (omega (arith, h)), d)
      (ap (λ m. some (x ∷ take k (drop (suc n) p.loops), at p m)) (omega arith))

-- Calls that come to it exactly.
turns_to_end :
    (k : ℕ) (p : EventLoopThreadPool) (n : ℕ)
    → n + suc k ≡ length p.loops
    → turns (suc k) (at p n) ≡ some (drop n p.loops, at p 0)
turns_to_end zero p n h =
    let (x, e, d) = get_elem-drop p.loops n (omega (arith, h)) in
    let g : get_next_loop (at p n) ≡ some (x, at p 0) =
      get_next_loop-eq p n x e
      ∙ ap (λ b. some (x, at p (if b then 0 else suc n)))
          (le→leb (length p.loops) (suc n) (omega (arith, h))) in
    rw (g, d, drop-all (suc n) p.loops (omega (arith, h)))
turns_to_end (suc k) p n h =
    let (x, e, d) = get_elem-drop p.loops n (omega (arith, h)) in
    let g : get_next_loop (at p n) ≡ some (x, at p (suc n)) =
      get_next_loop-eq p n x e
      ∙ ap (λ b. some (x, at p (if b then 0 else suc n)))
          (lt→leb (length p.loops) (suc n) (omega (arith, h))) in
    rw (g, turns_to_end k p (suc n) (omega (arith, h)), d)

abbrev Turns : Type 0
Turns = List ℕ × EventLoopThreadPool

abbrev behind : List ℕ → Turns → Option Turns
behind xs t = some (xs ++ t.0, t.1)

abbrev in_front : ℕ → Turns → Option Turns
in_front x t = some (x ∷ t.0, t.1)

-- The turns of one run of calls and then of another.
abbrev then_turns : ℕ → Option Turns → Option Turns
then_turns k o = o >>= λ t. turns k t.1 >>= behind t.0

behind-in_front :
    (x : ℕ) (xs : List ℕ) (o : Option Turns)
    → ((o >>= behind xs) >>= in_front x) ≡ (o >>= behind (x ∷ xs))
behind-in_front x xs none = refl
behind-in_front x xs (some t) = refl

then_turns-cons :
    (k x : ℕ) (o : Option Turns) → (then_turns k o >>= in_front x) ≡ then_turns k (o >>= in_front x)
then_turns-cons k x none = refl
then_turns-cons k x (some (xs, q)) = behind-in_front x xs (turns k q)

no_more : (o : Option Turns) → o ≡ (o >>= behind [])
no_more none = refl
no_more (some t) = refl

first_turn :
    (j k : ℕ) (o : Option (ℕ × EventLoopThreadPool))
    → ((q : EventLoopThreadPool) → turns (j + k) q ≡ then_turns k (turns j q))
    → (o >>= λ a. turns (j + k) a.1 >>= in_front a.0)
      ≡ then_turns k (o >>= λ a. turns j a.1 >>= in_front a.0)
first_turn j k none h = refl
first_turn j k (some (x, q)) h =
    ap (λ (o : Option Turns). o >>= in_front x) (h q) ∙ then_turns-cons k x (turns j q)

turns-plus : (j k : ℕ) (p : EventLoopThreadPool) → turns (j + k) p ≡ then_turns k (turns j p)
turns-plus zero k p =
    let e : zero + k ≡ k = omega arith in ap (λ n. turns n p) e ∙ no_more (turns k p)
turns-plus (suc j) k p =
    let e : suc j + k ≡ suc (j + k) = omega arith in
    ap (λ n. turns n p) e ∙ first_turn j k (get_next_loop p) (λ q. turns-plus j k q)

-- From any place of the loops, as many calls of `getNextLoop` as there are loops give every loop its
-- turn, in order, and come back to the place.
pub get_next_loop-round :
    (p : EventLoopThreadPool)
    → p.next < length p.loops
    → turns (length p.loops) p ≡ some (drop p.next p.loops ++ take p.next p.loops, p)
get_next_loop-round p h =
    let j : ℕ = length p.loops - p.next - 1 in
    let whole : suc j + p.next ≡ length p.loops = omega (arith, h) in
    let back : 0 + p.next ≡ p.next = omega arith in
    ap (λ n. turns n p) (sym whole)
    ∙ turns-plus (suc j) p.next p
    ∙ ap (then_turns p.next) (turns_to_end j p p.next (omega (arith, h)))
    ∙ ap (λ (o : Option Turns). o >>= behind (drop p.next p.loops))
        (turns_within p.next p 0 (omega (arith, h)))
    ∙ ap (λ n. some (drop p.next p.loops ++ take p.next p.loops, at p n)) back
