-- ===== src/Store/Stats.antt =====
-- `store_get_stats` of src/store.c, and the rows that `print_stats` of src/main_query.c prints.
use vector_clock_good.Common.{
  ℕ, zero, suc, ◌+◌, ◌-◌, ◌*◌, ◌%◌, ◌≤◌, ◌<◌, ◌≡◌, ◌⊎◌, refl, ◌∙◌, arith, ℤ, pos, negsuc, Bool,
  false, ◌&&◌, List, [], ◌∷◌, ltb, leb, ◌==◌, if◌then◌else◌, length, get_or, set, replicate, take,
  drop, Bytes, codes, str_eq, strcmp, atoi, negate, length-set, get_or-set_self, get_or-set_ne,
  get_or-replicate, Bool-cases, inl, inr,
}
use vector_clock_good.Entry.{LogEntry}
use vector_clock_good.Store.{LogStore}

-- `a - b` as an int
abbrev minus : ℕ → ℕ → ℤ
minus a b = if leb b a then pos (a - b) else negate (b - a)

-- The remainder of an int by 32, which has the sign of the int.
abbrev rem_32 : ℤ → ℤ
rem_32 (pos n) = pos (n % 32)
rem_32 (negsuc n) = negate ((n + 1) % 32)

-- `idx * 31 + *p`, where a char is signed.
abbrev hash_add : ℤ → ℕ → ℤ
hash_add (pos n) c = if ltb c 128 then pos (n * 31 + c) else minus (n * 31) (256 - c)
hash_add (negsuc n) c =
    if ltb c 128 then minus c ((n + 1) * 31) else negate ((n + 1) * 31 + (256 - c))

unfoldable pub hash_loop : ℤ → Bytes → ℤ
hash_loop idx [] = idx
hash_loop idx (c ∷ s) = hash_loop (rem_32 (hash_add idx c)) s

-- The index of a node id, as an int.
unfoldable pub stats_index : Bytes → ℤ
unfolding strcmp atoi hash_loop
stats_index id =
    if str_eq (take 5 id) (codes "node-") then atoi (drop 5 id) else hash_loop (pos 0) id

-- The arrays of `store_get_stats`.
pub record Tally : Type 0 where
  pub counts : List ℕ
  pub max_node : ℕ

abbrev count_at : Tally → ℕ → Tally
count_at t i = record {
  counts = set t.counts i (get_or t.counts i 0 + 1);
  max_node = if ltb t.max_node i then i else t.max_node;
}

-- An index that is negative or too large is not counted.
abbrev pub count_node : Tally → ℤ → Tally
count_node t (pos i) = if ltb i 32 then count_at t i else t
count_node t (negsuc i) = t

unfoldable pub count_entries : Tally → List LogEntry → Tally
unfolding stats_index
count_entries t [] = t
count_entries t (e ∷ es) = count_entries (count_node t (stats_index e.node_id)) es

pub record Stats : Type 0 where
  pub total : ℕ
  pub node_counts : List ℕ
  pub node_count : ℕ

unfoldable pub get_stats : LogStore → Stats
unfolding count_entries
get_stats s =
    let t = count_entries (record { counts = replicate 32 0; max_node = 0 }) s.entries in
    record { total = length s.entries; node_counts = t.counts; node_count = t.max_node + 1 }

-- The rows from node `i`: a node and its count, where that is not 0.
unfoldable pub stats_rows : ℕ → ℕ → List ℕ → List (ℕ × ℕ)
stats_rows zero i counts = []
stats_rows (suc n) i counts =
    let rest = stats_rows n (i + 1) counts in
    if ltb i 32 && ltb 0 (get_or counts i 0) then (i, get_or counts i 0) ∷ rest else rest

abbrev pub is_index : ℤ → ℕ → Bool
is_index (pos n) i = n == i
is_index (negsuc n) i = false

-- How many entries have the index `i`.
abbrev pub occurrences : ℕ → List LogEntry → ℕ
occurrences i [] = 0
occurrences i (e ∷ es) = (if is_index (stats_index e.node_id) i then 1 else 0) + occurrences i es

-- The tally `u` has `n` more entries of the index `i` than `t`.
record Grows (i n : ℕ) (t u : Tally) : Type 0 where
  cells : length u.counts ≡ 32
  count : get_or u.counts i 0 ≡ get_or t.counts i 0 + n
  least : t.max_node ≤ u.max_node
  most : u.max_node < 32
  covers : 0 < n → i ≤ u.max_node

count_node-Grows :
    (i : ℕ) (t : Tally) (index : ℤ)
    → i < 32
    → length t.counts ≡ 32
    → t.max_node < 32
    → Grows i (if is_index index i then 1 else 0) t (count_node t index)
count_node-Grows i t (negsuc n) h l m = record {
  cells = l;
  count = omega arith;
  least = omega arith;
  most = m;
  covers = λ p. absurd (omega arith);
}
count_node-Grows i t (pos n) h l m = elim (Bool-cases (ltb n 32)) [
  | inl b ↦ rw b (record {
    cells = length-set t.counts n (get_or t.counts n 0 + 1) ∙ l;
    count = ground (
      arith,
      get_or-set_self t.counts n (get_or t.counts n 0 + 1) 0,
      get_or-set_ne t.counts n i (get_or t.counts n 0 + 1) 0,
    );
    least = ground arith;
    most = ground arith;
    covers = λ p. ground arith;
  })
  | inr b ↦
      let other : (n == i) ≡ false = ground arith in
      rw (b, other)
        (record {
          cells = l;
          count = omega arith;
          least = omega arith;
          most = m;
          covers = λ p. absurd (omega arith);
        })
]

count_entries-Grows :
    (i : ℕ) (t : Tally) (es : List LogEntry)
    → i < 32
    → length t.counts ≡ 32
    → t.max_node < 32
    → Grows i (occurrences i es) t (count_entries t es)
unfolding count_entries
count_entries-Grows i t [] h l m = record {
  cells = l;
  count = omega arith;
  least = omega arith;
  most = m;
  covers = λ p. absurd (omega arith);
}
count_entries-Grows i t (e ∷ es) h l m =
    let index = stats_index e.node_id in
    let a = count_node-Grows i t index h l m in
    let b = count_entries-Grows i (count_node t index) es h a.cells a.most in
    record {
      cells = b.cells;
      count = omega (arith, a.count, b.count);
      least = omega (arith, a.least, b.least);
      most = b.most;
      covers = λ p. grind (arith, a.covers, b.covers, b.least);
    }

-- The counts are those of the entries with each index below 32; there are at most 32 nodes, and no
-- entry has an index from the number of nodes up to 31.
pub get_stats-occurrences :
    (s : LogStore) (i : ℕ)
    → i < 32
    → (get_or (get_stats s).node_counts i 0 ≡ occurrences i s.entries)
      × ((get_stats s).total ≡ length s.entries)
      × ((get_stats s).node_count ≤ 32)
      × ((occurrences i s.entries ≡ 0) ⊎ (i < (get_stats s).node_count))
unfolding get_stats
get_stats-occurrences s i h =
    let start : Tally = record { counts = replicate 32 0; max_node = 0 } in
    let g = count_entries-Grows i start s.entries h refl (omega arith) in
    (
      omega (arith, g.count, get_or-replicate 32 i),
      refl,
      omega (arith, g.most),
      elim (Bool-cases (ltb 0 (occurrences i s.entries))) [
        | inl b ↦ inr (omega (arith, g.covers (ground arith)))
        | inr b ↦ inl (ground arith)
      ],
    )
