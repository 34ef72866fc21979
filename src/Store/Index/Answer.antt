-- ===== src/Store/Index/Answer.antt =====
-- What a keyword query by the index answers.
use vector_clock_good.Common.{
  ℕ, ◌≡◌, refl, ap, ◌∙◌, Bool, true, false, ◌&&◌, ◌||◌, some, List, [], ◌∷◌, ltb, if◌then◌else◌,
  length, get_or, take, codes, arith, Bytes,
}
use vector_clock_good.Entry.{LogEntry}
use vector_clock_good.Entry
use vector_clock_good.Store.{LogStore, IndexEntry}
use vector_clock_good.Store.Index.{
  clean_term, get_posting_list, intersect_posting_lists, union_posting_lists, combine, query_terms,
  query_indices, query_by_index, entries_at, build_index, tokens,
}
use vector_clock_good.Store.Index.Merge.{Rising, mem, intersect-mem, union-mem}
use vector_clock_good.Store.Index.Build.{build_index-mem}
use vector_clock_good.Store.Index.Posting.{posting, has_word}

-- The test of a query with several words: all of them, or one of them.
abbrev pub join : Bool → Bool → Bool → Bool
join is_and a b = if is_and then a && b else a || b

abbrev pub join_all : Bool → (Bytes → Bool) → Bool → List Bytes → Bool
join_all is_and p first [] = first
join_all is_and p first (w ∷ ws) = join_all is_and p (join is_and first (p w)) ws

-- The words of a query, of which there must be one.
abbrev pub answers : Bool → (Bytes → Bool) → List Bytes → Bool
answers is_and p [] = false
answers is_and p (w ∷ ws) = join_all is_and p (p w) ws

-- The merge of two lists that rise, in either mode.
merge-mem :
    (is_and : Bool) (hi : ℕ) (a b : List ℕ)
    → Rising 0 hi a
    → Rising 0 hi b
    → let m = if is_and then intersect_posting_lists a b else union_posting_lists a b in
      Rising 0 hi m × ((i : ℕ) → mem i m ≡ join is_and (mem i a) (mem i b))
merge-mem true hi a b r s = intersect-mem 0 hi a b r s
merge-mem false hi a b r s = union-mem 0 hi a b r s

module _ (is_and : Bool) (dict : List IndexEntry) (hi : ℕ)
    (rising : (t : Bytes) → Rising 0 hi (posting dict t)) where
  abbrev found_in : ℕ → Bytes → Bool
  found_in j w = mem j (posting dict (clean_term w))

  combine-mem :
      (pl : List ℕ) (ws : List Bytes)
      → Rising 0 hi pl
      → Rising 0 hi (combine is_and dict pl ws)
        × ((j : ℕ) → mem j (combine is_and dict pl ws) ≡ join_all is_and (found_in j) (mem j pl) ws)
  unfolding combine get_posting_list
  combine-mem pl [] r = (r, λ j. refl)
  combine-mem pl (w ∷ ws) r =
      let (rm, mm) =
        merge-mem is_and hi pl (posting dict (clean_term w)) r (rising (clean_term w)) in
      let (rc, mc) =
        combine-mem
          (if is_and
            then intersect_posting_lists pl (posting dict (clean_term w))
            else union_posting_lists pl (posting dict (clean_term w)))
          ws rm in
      (rc, λ j. mc j ∙ ap (λ b. join_all is_and (found_in j) b ws) (mm j))

  query_terms-mem :
      (ws : List Bytes)
      → Rising 0 hi (query_terms is_and dict ws)
        × ((j : ℕ) → mem j (query_terms is_and dict ws) ≡ answers is_and (found_in j) ws)
  unfolding query_terms get_posting_list
  query_terms-mem [] = (omega arith, λ j. refl)
  query_terms-mem (w ∷ ws) = combine-mem (posting dict (clean_term w)) ws (rising (clean_term w))

join_all-ext :
    (is_and : Bool) (p r : Bytes → Bool) (b c : Bool) (ws : List Bytes)
    → ((w : Bytes) → p w ≡ r w)
    → b ≡ c
    → join_all is_and p b ws ≡ join_all is_and r c ws
join_all-ext is_and p r b c [] h e = e
join_all-ext is_and p r b c (w ∷ ws) h e =
    join_all-ext is_and p r (join is_and b (p w)) (join is_and c (r w)) ws h (rw (e, h w) refl)

answers-ext :
    (is_and : Bool) (p r : Bytes → Bool) (ws : List Bytes)
    → ((w : Bytes) → p w ≡ r w)
    → answers is_and p ws ≡ answers is_and r ws
answers-ext is_and p r [] h = refl
answers-ext is_and p r (w ∷ ws) h = join_all-ext is_and p r (p w) (r w) ws h (h w)

-- The words of a query string, which is cut to 255 bytes.
abbrev pub query_words : Bytes → List Bytes
query_words q = tokens (codes " ") (take 255 q)

-- The entry at `j` has the word of the query.
abbrev pub entry_has : LogStore → ℕ → Bytes → Bool
entry_has s j w =
    ltb j (length s.entries) && has_word (get_or s.entries j Entry.blank) (clean_term w)

-- On the index that was built from the entries as they stand, a query answers the first `max_count`
-- of the entries that have all its words, or one of them, in the order of the store and each once.
pub query_by_index-answers :
    (s : LogStore) (is_and : Bool) (q : Bytes) (max_count : ℕ)
    → let found = query_terms is_and (build_index s).index (query_words q) in
      (query_by_index (build_index s) (some q) is_and max_count
        ≡ entries_at s.entries (take max_count found))
      × Rising 0 (length s.entries) found
      × ((j : ℕ) → mem j found ≡ answers is_and (entry_has s j) (query_words q))
unfolding query_by_index query_indices build_index
query_by_index-answers s is_and q max_count =
    let rising = λ (t : Bytes). (build_index-mem s t).0 in
    let (rise, found) =
      query_terms-mem is_and (build_index s).index (length s.entries) rising (query_words q) in
    (
      refl,
      rise,
      λ j.
          found j
          ∙ answers-ext is_and _ (entry_has s j) (query_words q)
              (λ w. (build_index-mem s (clean_term w)).1 j),
    )
