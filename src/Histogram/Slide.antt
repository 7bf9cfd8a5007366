-- ===== src/Histogram/Slide.antt =====
-- `add` moves the window on by one sample.
use agile_pool.Prelude.{
  ℕ, suc, ◌-◌, ◌≤◌, ◌<◌, ◌≡◌, refl, sym, ap, ap₂, subst, ◌∙◌, Bool, true, false, List, [], ◌∷◌,
  ◌++◌, append-nil, append_assoc, arith, ltb, if◌then◌else◌, Bool-cases, inl, inr, length, lt→ltb,
  le→ltb, get_or, set, take, drop, length-append, length-set, length-drop, get_or-set, leb,
}
use agile_pool.Prelude.Slices.{take-all, drop-all, take-set, drop-set, drop-get_or, length-take}
use agile_pool.Histogram.{Histogram, bucket_index, evict, make_way, insert, next_pos, add}
use agile_pool.Histogram.Tracks.{occurrences, occurrences-append, slide, InRange, Tracks}

-- The oldest sample is out, and the next one goes to `pos`.
record Ready (h : Histogram) (n : ℕ) (kept : List ℕ) : Type 0 where
  size : length h.samples ≡ n
  inside : h.pos < n
  behind : (if h.filled then drop (suc h.pos) h.samples else []) ++ take h.pos h.samples ≡ kept
  known : (i : ℕ) → get_or h.counts i 0 ≡ occurrences i kept
  count_of : length h.counts ≡ length h.buckets
  range : InRange (length h.buckets) kept
  all : h.total ≡ length kept

InRange-append : (n : ℕ) (xs : List ℕ) (x : ℕ) → InRange n xs → x < n → InRange n (xs ++ x ∷ [])
InRange-append n [] x r h = (h, tt)
InRange-append n (y ∷ xs) x r h = (r.0, InRange-append n xs x r.1 h)

without_oldest :
    (counts : List ℕ) (x : ℕ) (r : List ℕ)
    → x < length counts
    → ((i : ℕ) → get_or counts i 0 ≡ occurrences i (x ∷ r))
    → (i : ℕ) → get_or (set counts x (get_or counts x 0 - 1)) i 0 ≡ occurrences i r
without_oldest counts x r h known i =
    ground (arith, get_or-set counts x i (get_or counts x 0 - 1) 0 h, known i, known x)

with_newest :
    (counts : List ℕ) (x : ℕ) (r : List ℕ)
    → x < length counts
    → ((i : ℕ) → get_or counts i 0 ≡ occurrences i r)
    → (i : ℕ) → get_or (set counts x (suc (get_or counts x 0))) i 0 ≡ occurrences i (r ++ x ∷ [])
with_newest counts x r h known i = ground (
  arith,
  get_or-set counts x i (suc (get_or counts x 0)) 0 h,
  known i,
  known x,
  occurrences-append i r (x ∷ []),
)

Ready-open :
    (h : Histogram) (n : ℕ) (recent : List ℕ)
    → h.filled ≡ false
    → Tracks h n recent
    → Ready h n recent × (length recent < n)
Ready-open h n recent e t =
    let w : take h.pos h.samples ≡ recent = ground (arith, t.window) in
    (
      record {
        size = t.size;
        inside = t.inside;
        behind = ground (arith, w);
        known = t.known;
        count_of = t.count_of;
        range = t.range;
        all = t.all;
      },
      omega (
        arith,
        ap length w,
        length-take h.pos h.samples (omega (arith, t.size, t.inside)),
        t.inside,
      ),
    )

Ready-evict :
    (h : Histogram) (n : ℕ) (recent : List ℕ)
    → h.filled ≡ true
    → Tracks h n recent
    → Ready (evict h) n (drop 1 recent) × (length recent ≡ n)
unfolding evict
Ready-evict h n recent e t =
    let x = get_or h.samples h.pos 0 in
    let rest = drop (suc h.pos) h.samples ++ take h.pos h.samples in
    let lt : h.pos < length h.samples = omega (arith, t.size, t.inside) in
    let w : x ∷ rest ≡ recent =
      ap (◌++ take h.pos h.samples) (sym (drop-get_or h.pos h.samples 0 lt))
      ∙ ground (arith, t.window) in
    let r : InRange (length h.buckets) (x ∷ rest) =
      subst (InRange (length h.buckets)) (sym w) t.range in
    let k =
      without_oldest h.counts x rest (omega (arith, r.0, t.count_of))
        (λ i. t.known i ∙ ap (occurrences i) (sym w)) in
    (
      record {
        size = t.size;
        inside = t.inside;
        behind = ground (arith, ap (drop 1) w);
        known = λ i. k i ∙ ap (λ l. occurrences i (drop 1 l)) w;
        count_of = length-set h.counts x _ ∙ t.count_of;
        range = subst (λ l. InRange (length h.buckets) (drop 1 l)) w r.1;
        all = omega (arith, t.all, ap length w, ap (λ l. length (drop 1 l)) w);
      },
      omega (
        arith,
        ap length w,
        length-append (drop (suc h.pos) h.samples) (take h.pos h.samples),
        length-drop (suc h.pos) h.samples,
        length-take h.pos h.samples (omega (arith, lt)),
        lt,
        t.size,
      ),
    )

next_window :
    (filled : Bool) (front behind front' behind' kept : List ℕ) (idx : ℕ)
    → behind' ≡ behind
    → front' ≡ front ++ idx ∷ []
    → (if filled then behind else []) ++ front ≡ kept
    → (if filled then behind' ++ front' else front') ≡ kept ++ idx ∷ []
next_window true front behind front' behind' kept idx e f k =
    ap₂ ◌++◌ e f ∙ sym (append_assoc behind front (idx ∷ [])) ∙ ap (◌++ idx ∷ []) k
next_window false front behind front' behind' kept idx e f k = f ∙ ap (◌++ idx ∷ []) k

window_at_end :
    (h : Histogram) (n : ℕ) (kept : List ℕ) (idx : ℕ)
    → Ready h n kept
    → n ≤ suc h.pos
    → set h.samples h.pos idx ++ [] ≡ kept ++ idx ∷ []
window_at_end h n kept idx d end =
    let s = set h.samples h.pos idx in
    let none_behind : (if h.filled then drop (suc h.pos) h.samples else []) ≡ [] =
      ground (arith, drop-all (suc h.pos) h.samples (omega (arith, d.size, end))) in
    append-nil _
    ∙ sym (take-all (suc h.pos) s (omega (arith, length-set h.samples h.pos idx, d.size, end)))
    ∙ take-set h.pos h.samples idx (omega (arith, d.size, d.inside))
    ∙ ap (λ l. (l ++ take h.pos h.samples) ++ idx ∷ []) (sym none_behind)
    ∙ ap (◌++ idx ∷ []) d.behind

window_inside :
    (h : Histogram) (n : ℕ) (kept : List ℕ) (idx : ℕ)
    → Ready h n kept
    → let s = set h.samples h.pos idx in
      (if h.filled then drop (suc h.pos) s ++ take (suc h.pos) s else take (suc h.pos) s)
      ≡ kept ++ idx ∷ []
window_inside h n kept idx d =
    let lt : h.pos < length h.samples = omega (arith, d.size, d.inside) in
    next_window h.filled (take h.pos h.samples) (drop (suc h.pos) h.samples) _ _ kept idx
      (drop-set h.pos h.samples idx lt) (take-set h.pos h.samples idx lt) d.behind

insert-Tracks :
    (h : Histogram) (n : ℕ) (kept : List ℕ) (idx : ℕ)
    → idx < length h.buckets
    → Ready h n kept
    → Tracks (next_pos (insert idx h)) n (kept ++ idx ∷ [])
unfolding next_pos insert
insert-Tracks h n kept idx lt d =
    let known = with_newest h.counts idx kept (omega (arith, lt, d.count_of)) d.known in
    let size = length-set h.samples h.pos idx ∙ d.size in
    let count_of = length-set h.counts idx (suc (get_or h.counts idx 0)) ∙ d.count_of in
    let range = InRange-append (length h.buckets) kept idx d.range lt in
    let all : suc h.total ≡ length (kept ++ idx ∷ []) =
      omega (arith, d.all, length-append kept (idx ∷ [])) in
    elim (Bool-cases (leb (length (set h.samples h.pos idx)) (suc h.pos))) [
      | inl wraps ↦ simp wraps record {
        size = size;
        inside = omega (arith, d.inside);
        window = window_at_end h n kept idx d (ground (arith, size));
        known = known;
        count_of = count_of;
        range = range;
        all = all;
      }
      | inr on ↦ simp on record {
        size = size;
        inside = ground (arith, size);
        window = window_inside h n kept idx d;
        known = known;
        count_of = count_of;
        range = range;
        all = all;
      }
    ]

make_way-Ready :
    (h : Histogram) (n : ℕ) (recent : List ℕ)
    → Tracks h n recent
    → Ready (make_way h) n (if ltb (length recent) n then recent else drop 1 recent)
unfolding make_way
make_way-Ready h n recent t = elim (Bool-cases h.filled) [
  | inl full ↦
      let d = Ready-evict h n recent full t in
      rw (le→ltb (length recent) n (omega (arith, d.1)))
        (subst (λ b. Ready (if b then evict h else h) n (drop 1 recent)) (sym full) d.0)
  | inr free ↦
      let d = Ready-open h n recent free t in
      rw (lt→ltb (length recent) n d.1)
        (subst (λ b. Ready (if b then evict h else h) n recent) (sym free) d.0)
]

make_way-buckets : (h : Histogram) → (make_way h).buckets ≡ h.buckets
unfolding make_way evict
make_way-buckets h = elim (Bool-cases h.filled) [
  | inl full ↦ ap (λ b. (if b then evict h else h).buckets) full
  | inr free ↦ ap (λ b. (if b then evict h else h).buckets) free
]

next_pos-buckets : (h : Histogram) → (next_pos h).buckets ≡ h.buckets
unfolding next_pos
next_pos-buckets h = elim (Bool-cases (leb (length h.samples) (suc h.pos))) [
  | inl wraps ↦ simp wraps refl
  | inr on ↦ simp on refl
]

pub add-buckets : (value : ℕ) (h : Histogram) → (add value h).buckets ≡ h.buckets
unfolding add insert
add-buckets value h =
    next_pos-buckets (insert (bucket_index h.buckets value) (make_way h)) ∙ make_way-buckets h

-- `add` slides the window on by one sample.
pub add-Tracks :
    (h : Histogram) (n : ℕ) (recent : List ℕ) (value : ℕ)
    → bucket_index h.buckets value < length h.buckets
    → Tracks h n recent
    → Tracks (add value h) n (slide n recent (bucket_index h.buckets value))
unfolding add
add-Tracks h n recent value lt t =
    let idx = bucket_index h.buckets value in
    insert-Tracks (make_way h) n _ idx (subst (λ l. idx < length l) (sym (make_way-buckets h)) lt)
      (make_way-Ready h n recent t)
