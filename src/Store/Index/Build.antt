-- ===== src/Store/Index/Build.antt =====
-- The dictionary that `store_build_index` makes: under each word the entries that have it.
use vector_clock_good.Common.{
  ℕ, zero, suc, ◌+◌, ◌<◌, ◌≡◌, refl, sym, ap, ◌∙◌, Bool, true, false, ◌&&◌, ◌||◌, List, [], ◌∷◌,
  ltb, ◌==◌, length, get_or, arith, Bytes,
}
use vector_clock_good.Entry.{LogEntry}
use vector_clock_good.Entry
use vector_clock_good.Store.{LogStore, IndexEntry}
use vector_clock_good.Store.Index.{find_term, index_tokens, index_entries, build_index, words}
use vector_clock_good.Store.Index.Merge.{Rising, mem}
use vector_clock_good.Store.Index.Posting.{
  raise-Rising, posting, has_word, IsRising, index_tokens-mem, index_tokens-IsRising,
}

add_zero : (n : ℕ) → n + 0 ≡ n
add_zero n = omega arith

add_suc : (i n : ℕ) → i + suc n ≡ (i + 1) + n
add_suc i n = omega arith

plus_one : (i : ℕ) → i + 1 ≡ suc i
plus_one i = omega arith

zero_add : (n : ℕ) → 0 + n ≡ n
zero_add n = omega arith

and_false_or : (a b : Bool) → ((a && false) || b) ≡ b
and_false_or a b = ground arith

and_true_or : (a : Bool) → ((a && true) || false) ≡ a
and_true_or a = ground arith

not_below_zero : (k : ℕ) → ltb k 0 ≡ false
not_below_zero k = ground arith

below_suc : (n : ℕ) → ltb 0 (suc n) ≡ true
below_suc n = ground arith

below_both : (k n : ℕ) → ltb (suc k) (suc n) ≡ ltb k n
below_both k n = ground arith

eq_of : (j i : ℕ) → j ≡ i → (j == i) ≡ true
eq_of j i h = ground arith

ne_of : (j i : ℕ) → i < j → (j == i) ≡ false
ne_of j i h = ground arith

-- The entry at `j`, where the entries are counted from `i`, has the word.
abbrev occurs : List LogEntry → ℕ → Bytes → ℕ → Bool
occurs [] i t j = false
occurs (e ∷ es) i t j = (has_word e t && j == i) || occurs es (i + 1) t j

index_entries-mem :
    (dict : List IndexEntry) (i : ℕ) (es : List LogEntry) (t : Bytes) (j : ℕ)
    → mem j (posting (index_entries dict i es) t) ≡ (mem j (posting dict t) || occurs es i t j)
unfolding index_entries
index_entries-mem dict i [] t j = ground arith
index_entries-mem dict i (e ∷ es) t j =
    index_entries-mem (index_tokens dict i (words e)) (i + 1) es t j
    ∙ ap (λ b. b || occurs es (i + 1) t j) (index_tokens-mem dict i (words e) t j)
    ∙ ground arith

index_entries-IsRising :
    (dict : List IndexEntry) (i : ℕ) (es : List LogEntry)
    → IsRising i dict
    → IsRising (i + length es) (index_entries dict i es)
unfolding index_entries IsRising
index_entries-IsRising dict i [] r t = rw (add_zero i) (r t)
index_entries-IsRising dict i (e ∷ es) r t =
    rw (add_suc i (length es))
      (index_entries-IsRising (index_tokens dict i (words e)) (i + 1) es next t)
  where
    next : IsRising (i + 1) (index_tokens dict i (words e))
    next =
        rw (plus_one i)
          (index_tokens-IsRising dict i (words e) (λ t. raise-Rising 0 i (posting dict t) (r t)))

occurs-before : (es : List LogEntry) (i : ℕ) (t : Bytes) (j : ℕ) → j < i → occurs es i t j ≡ false
occurs-before [] i t j h = refl
occurs-before (e ∷ es) i t j h =
    ap (λ b. (has_word e t && b) || occurs es (i + 1) t j) (ne_of_lt h)
    ∙ and_false_or (has_word e t) (occurs es (i + 1) t j)
    ∙ occurs-before es (i + 1) t j (omega arith)
  where
    ne_of_lt : j < i → (j == i) ≡ false
    ne_of_lt h = ground arith

occurs-get :
    (es : List LogEntry) (i k : ℕ) (t : Bytes) (j : ℕ)
    → j ≡ k + i
    → occurs es i t j ≡ (ltb k (length es) && has_word (get_or es k Entry.blank) t)
occurs-get [] i k t j h =
    sym (ap (λ b. b && has_word (get_or [] k Entry.blank) t) (not_below_zero k))
occurs-get (e ∷ es) i zero t j h =
    rw (eq_of j i (omega arith), occurs-before es (i + 1) t j (omega arith), below_suc (length es))
      (and_true_or (has_word e t))
occurs-get (e ∷ es) i (suc k) t j h =
    rw
      (
        ne_of j i (omega arith),
        below_both k (length es),
        and_false_or (has_word e t) (occurs es (i + 1) t j),
      )
      (occurs-get es (i + 1) k t j (omega arith))

-- In the index that is built, the list under a word rises and has exactly the positions of the
-- entries whose message has the word.
pub build_index-mem :
    (s : LogStore) (t : Bytes)
    → Rising 0 (length s.entries) (posting (build_index s).index t)
      × ((j : ℕ)
          → mem j (posting (build_index s).index t)
            ≡ (ltb j (length s.entries) && has_word (get_or s.entries j Entry.blank) t))
unfolding build_index find_term IsRising
build_index-mem s t = (
  rw (sym (zero_add (length s.entries)))
      (index_entries-IsRising [] 0 s.entries (λ t. omega arith) t),
  λ j. index_entries-mem [] 0 s.entries t j ∙ occurs-get s.entries 0 j t j (omega arith),
)
