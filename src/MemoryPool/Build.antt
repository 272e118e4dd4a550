-- ===== src/MemoryPool/Build.antt =====
-- `build_freelist`: it ends, and no byte is lost or made up.
use lazyserver.Base.{
  ℕ, zero, suc, ◌+◌, ◌-◌, ◌*◌, ◌/◌, ◌%◌, ◌≤◌, ◌<◌, ◌^◌, ◌≡◌, refl, ap, ◌∙◌, length, arith, add_size,
  sub_size, mul_size, Run, Yields, yields, if-false, Yields-then, Yields-weaken, Yields-test,
  if◌then◌else◌, ltb, leb, ltb→lt, leb→le, Bool-cases, inl, inr, ◌==◌, true, false,
}
use lazyserver.MemoryPool.{
  Pool, hand_out, save_rest, round_up, freelist_index, refill, build_freelist,
}
use lazyserver.MemoryPool.Classes.{freelist_index_class, round_up_least}
use lazyserver.MemoryPool.Total.{
  Measure, IsMeasure, empty_block, cut, listed, free, IsValid, push_free-Stored, carve-Stored,
}

-- A size that has a class.
pub record IsClass (bytes : ℕ) : Type 0 where
  pub positive : 0 < bytes
  pub small : bytes ≤ 128
  pub aligned : bytes % 8 ≡ 0

-- The pool after `bytes` went to the user, where `obtained` bytes came from the system at `source`. What
-- the pool has, by any measure, and the block are what the pool had and what was obtained: no byte is
-- lost, made up or handed out twice.
pub record Served (pool : Pool) (bytes source obtained : ℕ) (out : ℕ × Pool) : Type 0 where
  pub valid : IsValid out.1
  pub block : 0 < out.0
  pub conserved :
      (w : Measure) → IsMeasure w → free w out.1 + w out.0 bytes ≡ free w pool + w source obtained
  pub counted : out.1.heap_size ≡ pool.heap_size + obtained

one_less : (n b : ℕ) → 0 < n → (n - 1) * b + b ≡ b * n
one_less zero b h = absurd (omega arith)
one_less (suc n) b h = let e : suc n - 1 ≡ n = omega arith in rw e (omega arith)

le-mul : (n b : ℕ) → 0 < b → n ≤ b * n
le-mul n zero h = absurd (omega arith)
le-mul n (suc b) h = omega arith

mul-aligned : (b n : ℕ) → b % 8 ≡ 0 → b * n % 8 ≡ 0
mul-aligned b zero h = omega arith
mul-aligned b (suc n) h = omega (arith, mul-aligned b n h)

module _ (pool : Pool) (v : IsValid pool) (bytes : ℕ) (c : IsClass bytes) where
  hand_out-Served :
      (nobjs source : ℕ)
      → 0 < nobjs
      → bytes * nobjs ≤ pool.end_free - pool.start_free
      → Yields (Served pool bytes source 0) (hand_out pool bytes nobjs)
  unfolding hand_out
  hand_out-Served nobjs source pos fits =
      let class = freelist_index_class bytes c.positive c.small c.aligned in
      let total : mul_size bytes nobjs ≡ bytes * nobjs = omega (arith, v.addressable) in
      let count = nobjs - 1 in
      let rest : sub_size nobjs 1 ≡ count =
        omega (arith, le-mul nobjs bytes c.positive, v.addressable) in
      let parts : count * bytes + bytes ≡ bytes * nobjs = one_less nobjs bytes pos in
      let next : add_size pool.start_free bytes ≡ pool.start_free + bytes =
        omega (arith, v.addressable, parts) in
      let end : add_size pool.start_free (bytes * nobjs) ≡ pool.start_free + bytes * nobjs =
        omega (arith, v.addressable) in
      rw (total, rest, next, end)
        (Yields-then
          (carve-Stored count pool (freelist_index bytes) (pool.start_free + bytes) bytes
            (omega (arith, class.0, v.classes)) class.1 (omega (arith, c.positive))
            (omega (arith, parts, v.addressable)))
          λ pool' s. yields (record {
            valid = record {
              classes = s.classes ∙ v.classes;
              range = omega (arith, s.end_kept);
              addressable = omega (arith, s.end_kept, v.addressable);
              start_aligned = omega (arith, mul-aligned bytes nobjs c.aligned, v.start_aligned);
              end_aligned = ap (λ k. k % 8) s.end_kept ∙ v.end_aligned;
              real = λ h. omega (arith, c.positive);
            };
            block = v.real (omega (arith, parts, c.positive));
            conserved = λ w m.
                let all = bytes * nobjs in
                let left = pool.end_free - pool.start_free in
                let first = cut w m pool.start_free left all (left - all) (omega (arith, fits)) in
                let blocks =
                  cut w m pool.start_free all bytes (count * bytes) (omega (arith, parts)) in
                let end_left : pool'.end_free - (pool.start_free + all) ≡ left - all =
                  omega (arith, s.end_kept) in
                let end_part = ap (w (pool.start_free + all)) end_left in
                omega (arith, s.more w m, first, blocks, end_part, empty_block w m source);
            counted = omega (arith, s.heap_kept);
          }))

  pub save_rest-Saved :
      pool.end_free - pool.start_free < bytes
      → Yields
          (λ p.
            (length p.free_list ≡ 16)
            × ((w : Measure) → IsMeasure w → listed w 0 p.free_list ≡ free w pool)
            × (p.start_free ≡ pool.end_free)
            × (p.end_free ≡ pool.end_free)
            × (p.heap_size ≡ pool.heap_size))
          (save_rest pool)
  unfolding save_rest
  save_rest-Saved short =
      let left = pool.end_free - pool.start_free in
      let e : sub_size pool.end_free pool.start_free ≡ left =
        omega (arith, v.range, v.addressable) in
      rw e (
        Yields-test (ltb 0 left)
          (λ some_left.
            let pos : 0 < left = ltb→lt 0 left some_left in
            let class =
              freelist_index_class left pos (omega (arith, c.small))
                (omega (arith, v.range, v.start_aligned, v.end_aligned)) in
            Yields-then
              (push_free-Stored pool (freelist_index left) pool.start_free left
                (omega (arith, class.0, v.classes)) class.1 (v.real (omega arith)))
              λ p s. yields (s.classes ∙ v.classes, s.more, refl, s.end_kept, s.heap_kept))
          λ none_left. yields (
            v.classes,
            λ w m.
                let gone : left ≡ 0 = ground arith in
                let nothing = ap (w pool.start_free) gone in
                omega (arith, nothing, empty_block w m pool.start_free),
            ground (arith, v.range),
            refl,
            refl,
          ))

-- What `build_freelist` asks of the system for a class.
abbrev pub request : Pool → ℕ → ℕ
request pool bytes = 40 * bytes + round_up (pool.heap_size / 16)

-- `malloc` gives a block for n bytes: inside the address space, and aligned for any object.
pub record Gives (malloc : ℕ → ℕ) (n : ℕ) : Type 0 where
  pub positive : 0 < malloc n
  pub aligned : malloc n % 8 ≡ 0
  pub inside : malloc n + n < 2 ^ 64

left_of_blocks : (left bytes : ℕ) → 0 < bytes → bytes ≤ left → 0 < left / bytes
left_of_blocks left bytes pos h = grind arith

module _ (malloc : ℕ → ℕ) (pool : Pool) (v : IsValid pool) (bytes : ℕ) (c : IsClass bytes) where
  -- With a block left in the free heap, no call to the system is made.
  build_stocked :
      (k source : ℕ)
      → bytes ≤ pool.end_free - pool.start_free
      → Yields (Served pool bytes source 0) (build_freelist malloc (suc k) pool bytes)
  unfolding build_freelist
  build_stocked k source enough =
      let left = pool.end_free - pool.start_free in
      let e : sub_size pool.end_free pool.start_free ≡ left =
        omega (arith, v.range, v.addressable) in
      let total : mul_size bytes 20 ≡ bytes * 20 = omega (arith, c.small) in
      let one : leb bytes left ≡ true = ground arith in
      rw (e, total)
        (Yields-test (leb (bytes * 20) left)
          (λ all. hand_out-Served pool v bytes c 20 source (omega arith) (leb→le _ _ all))
          λ some_only. rw one (
            hand_out-Served pool v bytes c (left / bytes) source
              (left_of_blocks left bytes c.positive enough) (omega arith)))

module _ (malloc : ℕ → ℕ) (pool : Pool) (v : IsValid pool) (bytes : ℕ) (c : IsClass bytes) where
  -- With less than a block left, the rest is saved, and what the system gives is added to it.
  refill-Served :
      (again : Pool → Run (ℕ × Pool))
      → pool.end_free - pool.start_free < bytes
      → pool.heap_size + request pool bytes < 2 ^ 64
      → Gives malloc (request pool bytes)
      → ((fresh : Pool)
          → IsValid fresh
          → bytes ≤ fresh.end_free - fresh.start_free
          → Yields (Served fresh bytes 0 0) (again fresh))
      → Yields
          (Served pool bytes (malloc (request pool bytes)) (request pool bytes))
          (refill malloc again pool bytes)
  unfolding refill
  refill-Served again short counted g served =
      Yields-then (save_rest-Saved pool v bytes c short) λ p (classes, listed, start, end, heap).
        let n = request pool bytes in
        let twice : mul_size 2 (mul_size bytes 20) ≡ 40 * bytes = omega (arith, c.small) in
        let same : add_size (mul_size 2 (mul_size bytes 20)) (round_up (p.heap_size / 16)) ≡ n =
          rw (twice, heap) (omega (arith, g.inside)) in
        let real : (malloc n == 0) ≡ false = ground (arith, g.positive) in
        let stop : add_size (malloc n) n ≡ malloc n + n = omega (arith, g.inside) in
        let sum : add_size p.heap_size n ≡ pool.heap_size + n = omega (arith, heap) in
        let fresh : Pool = record p {
          start_free = malloc n;
          end_free = malloc n + n;
          heap_size = pool.heap_size + n;
        } in
        let rounded = round_up_least (pool.heap_size / 16) (omega (arith, counted)) in
        let fresh_v : IsValid fresh = record {
          classes = classes;
          range = omega arith;
          addressable = g.inside;
          start_aligned = g.aligned;
          end_aligned = omega (arith, g.aligned, rounded.1);
          real = λ _. g.positive;
        } in
        let done : Yields (Served fresh bytes 0 0) (again fresh) =
          served fresh fresh_v (omega arith) in
        rw (same, if-false (malloc n == 0) _ _ real, stop, sum)
          (Yields-weaken
            (λ out s. record {
              valid = s.valid;
              block = s.block;
              conserved = λ w m.
                  let got : malloc n + n - malloc n ≡ n = omega arith in
                  let obtained = ap (w (malloc n)) got in
                  omega (arith, s.conserved w m, listed w m, obtained, empty_block w m 0);
              counted = omega (arith, s.counted);
            })
            done)

  build_refilled :
      pool.end_free - pool.start_free < bytes
      → pool.heap_size + request pool bytes < 2 ^ 64
      → Gives malloc (request pool bytes)
      → Yields
          (Served pool bytes (malloc (request pool bytes)) (request pool bytes))
          (build_freelist malloc 2 pool bytes)
  unfolding build_freelist
  build_refilled short counted g =
      let left = pool.end_free - pool.start_free in
      let e : sub_size pool.end_free pool.start_free ≡ left =
        omega (arith, v.range, v.addressable) in
      let many : leb (mul_size bytes 20) left ≡ false = ground (arith, c.small) in
      let one : leb bytes left ≡ false = ground arith in
      let again : Pool → Run (ℕ × Pool) = λ pool'. build_freelist malloc 1 pool' bytes in
      let refilled =
        refill-Served again short counted g
          λ fresh fresh_v enough. build_stocked malloc fresh fresh_v bytes c 0 0 enough in
      rw (e, many, one) refilled

-- What `build_freelist` takes from the system: nothing while a block is left in the free heap.
unfoldable pub obtained : Pool → ℕ → ℕ
obtained pool bytes = if leb bytes (pool.end_free - pool.start_free) then 0 else request pool bytes

module _ (malloc : ℕ → ℕ) (pool : Pool) (v : IsValid pool) where
  -- On a valid pool and for a size with a class, where `malloc` gives the memory that is asked for
  -- and `heap_size` does not wrap, `build_freelist` ends within its two calls with a block that is
  -- not null. The pool stays valid, and `heap_size` grows by what was obtained from the system. By
  -- any measure of blocks that adds up over adjacent ones, what is free and the block are what was
  -- free and the memory obtained: no byte is lost and none is in two places.
  pub build_freelist-Served :
      (bytes : ℕ)
      → IsClass bytes
      → pool.heap_size + request pool bytes < 2 ^ 64
      → Gives malloc (request pool bytes)
      → Yields
          (Served pool bytes (malloc (request pool bytes)) (obtained pool bytes))
          (build_freelist malloc 2 pool bytes)
  unfolding obtained
  build_freelist-Served bytes c counted g =
      let left = pool.end_free - pool.start_free in
      elim (Bool-cases (leb bytes left)) [
        | inl enough ↦ rw enough (
            build_stocked malloc pool v bytes c 1 (malloc (request pool bytes)) (leb→le _ _ enough))
        | inr short ↦
            rw short (build_refilled malloc pool v bytes c (ground (arith, short)) counted g)
      ]
