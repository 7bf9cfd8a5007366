-- ===== src/Pool/Channels.antt =====
-- pool.go: `nextShard`, sends and receives on the sharded handoff queue.
use Prim.Native.Nat.{min, digits, bit_and, bit_and-bitwise}
use agile_pool.Prelude.{
  ◌-◌, ◌≤◌, ◌/◌, ℕ, zero, suc, ◌+◌, ◌%◌, ◌^◌, ◌<◌, ◌≡◌, refl, ap, Bool, true, false, List, [], ◌∷◌,
  ◌++◌, arith, ltb, if◌then◌else◌, length, get_or, set, length-set, take, drop, replicate,
}
use agile_pool.Pool.State.{Task, Settings, Channels}

-- `seq & p.shardMask`: the mask is the number of shards less one.
abbrev pub masked : Settings → ℕ → ℕ
masked c seq = bit_and seq (c.shard_count - 1)

-- `p.taskQueues[seq&p.shardMask]`, for the next value of sendSeq.
unfoldable pub next_shard : Settings → Channels → ℕ × Channels
next_shard c ch =
    let seq = (ch.send_seq + 1) % 2 ^ 64 in (masked c seq, record ch { send_seq = seq })

-- What waits in shard `q`.
abbrev pub queue : Channels → ℕ → List Task
queue ch q = get_or ch.queues q []

unfoldable pub has_room : Settings → Channels → ℕ → Bool
has_room c ch q = ltb (length (queue ch q)) c.shard_cap

unfoldable pub send : Channels → ℕ → Task → Channels
send ch q t = record ch { queues = set ch.queues q (queue ch q ++ t ∷ []) }

-- `select { case p.nextShard() <- t: return true; default: return false }`
unfoldable pub try_send : Settings → Task → Channels → Bool × Channels
unfolding next_shard has_room send
try_send c t ch =
    let (q, ch') = next_shard c ch in
    if has_room c ch' q then (true, send ch' q t) else (false, ch')

unfoldable pub receive : Channels → ℕ → List Task → Channels
receive ch q rest = record ch { queues = set ch.queues q rest }

-- The tasks in a list, each counted with its weight.
unfoldable pub mass : (Task → ℕ) → List Task → ℕ
mass weight [] = 0
mass weight (t ∷ ts) = weight t + mass weight ts

unfoldable pub mass_all : (Task → ℕ) → List (List Task) → ℕ
unfolding mass
mass_all weight [] = 0
mass_all weight (q ∷ qs) = mass weight q + mass_all weight qs

module _ (weight : Task → ℕ) where
  pub mass-append : (xs ys : List Task) → mass weight (xs ++ ys) ≡ mass weight xs + mass weight ys
  unfolding mass
  mass-append [] ys = omega arith
  mass-append (x ∷ xs) ys = omega (arith, mass-append xs ys)

  pub mass-take-drop :
      (n : ℕ) (xs : List Task) → mass weight (take n xs) + mass weight (drop n xs) ≡ mass weight xs
  unfolding mass
  mass-take-drop zero xs = omega arith
  mass-take-drop (suc n) [] = omega arith
  mass-take-drop (suc n) (x ∷ xs) = omega (arith, mass-take-drop n xs)

  mass_all-set :
      (qs : List (List Task)) (i : ℕ) (new : List Task)
      → i < length qs
      → mass weight (get_or qs i []) + mass_all weight (set qs i new)
        ≡ mass weight new + mass_all weight qs
  unfolding mass_all
  mass_all-set [] i new h = absurd (omega arith)
  mass_all-set (q ∷ qs) zero new h = omega arith
  mass_all-set (q ∷ qs) (suc i) new h = omega (arith, mass_all-set qs i new)

  -- A send adds the task, a receive takes it out.
  pub mass-send :
      (ch : Channels) (q : ℕ) (t : Task)
      → q < length ch.queues
      → mass_all weight (send ch q t).queues ≡ weight t + mass_all weight ch.queues
  unfolding send mass
  mass-send ch q t h =
      omega (
        arith,
        mass_all-set ch.queues q (queue ch q ++ t ∷ []) h,
        mass-append (queue ch q) (t ∷ []),
      )

  pub mass-receive :
      (ch : Channels) (q : ℕ) (t : Task) (rest : List Task)
      → q < length ch.queues
      → queue ch q ≡ t ∷ rest
      → weight t + mass_all weight (receive ch q rest).queues ≡ mass_all weight ch.queues
  unfolding receive mass
  mass-receive ch q t rest h e = omega (arith, mass_all-set ch.queues q rest h, ap (mass weight) e)

  pub mass-next_shard :
      (c : Settings) (ch : Channels)
      → mass_all weight (next_shard c ch).1.queues ≡ mass_all weight ch.queues
  unfolding next_shard
  mass-next_shard c ch = refl

  pub mass_all-replicate : (n : ℕ) → mass_all weight (replicate n []) ≡ 0
  unfolding mass_all mass
  mass_all-replicate zero = refl
  mass_all-replicate (suc n) = omega (arith, mass_all-replicate n)

pub length-send :
    (ch : Channels) (q : ℕ) (t : Task) → length (send ch q t).queues ≡ length ch.queues
unfolding send
length-send ch q t = length-set ch.queues q (queue ch q ++ t ∷ [])

pub length-receive :
    (ch : Channels) (q : ℕ) (rest : List Task)
    → length (receive ch q rest).queues ≡ length ch.queues
unfolding receive
length-receive ch q rest = length-set ch.queues q rest

pub length-next_shard :
    (c : Settings) (ch : Channels) → length (next_shard c ch).1.queues ≡ length ch.queues
unfolding next_shard
length-next_shard c ch = refl

digits-le : (n a m : ℕ) → digits (λ b. 0) min n a m ≤ m
digits-le zero a m = omega arith
digits-le (suc n) zero m = omega arith
digits-le (suc n) (suc a) m = omega (arith, digits-le n (suc a / 2) (m / 2))

-- A masked number is that of a shard.
pub masked-lt : (c : Settings) (seq : ℕ) → 0 < c.shard_count → masked c seq < c.shard_count
masked-lt c seq h =
    let le : bit_and seq (c.shard_count - 1) ≤ c.shard_count - 1 =
      simp bit_and-bitwise (digits-le seq seq (c.shard_count - 1)) in
    omega (arith, le)

-- The cursor stays on the shards.
pub next_shard-lt :
    (c : Settings) (ch : Channels) → 0 < c.shard_count → (next_shard c ch).0 < c.shard_count
unfolding next_shard
next_shard-lt c ch h = masked-lt c ((ch.send_seq + 1) % 2 ^ 64) h

-- An offer that is taken moves the task into a shard, and any other leaves the shards alone.
pub try_send-mass :
    (weight : Task → ℕ) (c : Settings) (t : Task) (ch : Channels)
    → 0 < c.shard_count
    → length ch.queues ≡ c.shard_count
    → let (sent, ch') = try_send c t ch in
      (length ch'.queues ≡ c.shard_count)
      × (mass_all weight ch'.queues
          ≡ (if sent then weight t + mass_all weight ch.queues else mass_all weight ch.queues))
unfolding try_send
try_send-mass weight c t ch h e =
    let (q, ch') = next_shard c ch in
    let inside : q < length ch'.queues =
      omega (arith, next_shard-lt c ch h, length-next_shard c ch) in
    ground (
      arith,
      mass-send weight ch' q t inside,
      mass-next_shard weight c ch,
      length-send ch' q t,
      length-next_shard c ch,
    )
