-- ===== src/Store/Index.antt =====
-- The inverted index of src/store.c: normalising words, building the dictionary, and queries by it.
pub mod Merge
pub mod Posting
pub mod Build
pub mod Answer
pub mod Stale
use vector_clock_good.Common.{
  ℕ, zero, suc, ◌+◌, Bool, true, false, not, ◌&&◌, ◌||◌, Option, none, some, List, [], ◌∷◌, ◌++◌,
  ltb, leb, ◌==◌, if◌then◌else◌, length, take, Bytes, codes, str_eq, strcmp, is_alnum, to_lower,
  get_or,
}
use vector_clock_good.Entry.{LogEntry, log_message_max_len}
use vector_clock_good.Entry
use vector_clock_good.Store.{LogStore, IndexEntry}

abbrev pub max_term_len : ℕ
max_term_len = 64

abbrev word_delimiters : Bytes
word_delimiters = codes " \t\r\n,.!?:;()[]{}--_\"'"

abbrev pub is_one_of : Bytes → ℕ → Bool
is_one_of [] c = false
is_one_of (d ∷ ds) c = c == d || is_one_of ds c

-- A token is put in front of the others unless it is empty.
abbrev pub add_token : Bytes → List Bytes → List Bytes
add_token [] ts = ts
add_token (c ∷ t) ts = (c ∷ t) ∷ ts

-- The tokens that `strtok` gives one after the other, with the one that is being read.
abbrev pub tokens_loop : Bytes → Bytes → Bytes → List Bytes
tokens_loop delimiters token [] = add_token token []
tokens_loop delimiters token (c ∷ s) =
    let rest = tokens_loop delimiters (if is_one_of delimiters c then [] else token ++ c ∷ []) s in
    if is_one_of delimiters c then add_token token rest else rest

abbrev pub tokens : Bytes → Bytes → List Bytes
tokens delimiters s = tokens_loop delimiters [] s

-- `normalize_term`, with the bytes that `dst` has left.
unfoldable pub normalize_term : ℕ → Bytes → Bytes
unfolding is_alnum to_lower
normalize_term zero src = []
normalize_term (suc n) [] = []
normalize_term (suc n) (c ∷ src) =
    let rest = normalize_term (if is_alnum c then n else suc n) src in
    if is_alnum c then to_lower c ∷ rest else rest

-- A word as the dictionary has it.
abbrev pub clean_term : Bytes → Bytes
clean_term token = normalize_term 63 token

abbrev pub posting_list_add : List ℕ → ℕ → List ℕ
posting_list_add pl i = pl ++ i ∷ []

abbrev ends_with : List ℕ → ℕ → Bool
ends_with [] i = false
ends_with (x ∷ []) i = x == i
ends_with (x ∷ (y ∷ ys)) i = ends_with (y ∷ ys) i

-- An entry is recorded once for a word.
abbrev pub add_once : List ℕ → ℕ → List ℕ
add_once pl i = if ends_with pl i then pl else posting_list_add pl i

-- The entry `i` under the word `term`, which is new to the dictionary or not.
unfoldable pub add_term : List IndexEntry → Bytes → ℕ → List IndexEntry
unfolding strcmp
add_term [] term i = record { term = term; posting = posting_list_add [] i } ∷ []
add_term (d ∷ ds) term i =
    if str_eq d.term term
    then record { term = d.term; posting = add_once d.posting i } ∷ ds
    else d ∷ add_term ds term i

unfoldable pub index_tokens : List IndexEntry → ℕ → List Bytes → List IndexEntry
unfolding add_term normalize_term
index_tokens dict i [] = dict
index_tokens dict i (token ∷ ts) =
    index_tokens
      (if ltb 0 (length (clean_term token)) then add_term dict (clean_term token) i else dict) i ts

abbrev pub words : LogEntry → List Bytes
words e = tokens word_delimiters (take log_message_max_len e.message)

unfoldable pub index_entries : List IndexEntry → ℕ → List LogEntry → List IndexEntry
unfolding index_tokens
index_entries dict i [] = dict
index_entries dict i (e ∷ es) = index_entries (index_tokens dict i (words e)) (i + 1) es

unfoldable pub build_index : LogStore → LogStore
unfolding index_entries
build_index s = record s { index = index_entries [] 0 s.entries }

-- `intersect_posting_lists`, with the rounds left.
unfoldable pub intersect_loop : ℕ → List ℕ → List ℕ → List ℕ
intersect_loop zero a b = []
intersect_loop (suc n) [] b = []
intersect_loop (suc n) (x ∷ a) [] = []
intersect_loop (suc n) (x ∷ a) (y ∷ b) =
    let rest = intersect_loop n (if leb x y then a else x ∷ a) (if leb y x then b else y ∷ b) in
    if x == y then x ∷ rest else rest

unfoldable pub intersect_posting_lists : List ℕ → List ℕ → List ℕ
unfolding intersect_loop
intersect_posting_lists a b = intersect_loop (length a + length b) a b

-- `union_posting_lists`, with the rounds left; what remains of a list is copied at the end.
unfoldable pub union_loop : ℕ → List ℕ → List ℕ → List ℕ
union_loop zero a b = a ++ b
union_loop (suc n) [] b = b
union_loop (suc n) (x ∷ a) [] = x ∷ a
union_loop (suc n) (x ∷ a) (y ∷ b) =
    let rest = union_loop n (if leb x y then a else x ∷ a) (if leb y x then b else y ∷ b) in
    if leb x y then x ∷ rest else y ∷ rest

unfoldable pub union_posting_lists : List ℕ → List ℕ → List ℕ
unfolding union_loop
union_posting_lists a b = union_loop (length a + length b) a b

unfoldable pub find_term : List IndexEntry → Bytes → Option (List ℕ)
unfolding strcmp
find_term [] term = none
find_term (d ∷ ds) term = if str_eq d.term term then some d.posting else find_term ds term

unfoldable pub get_posting_list : List IndexEntry → Bytes → Option (List ℕ)
unfolding find_term normalize_term
get_posting_list dict term = find_term dict (clean_term term)

-- A word that is nowhere has the empty list.
abbrev pub or_empty : Option (List ℕ) → List ℕ
or_empty none = []
or_empty (some pl) = pl

-- The rounds of `store_query_by_index` behind the first word.
unfoldable pub combine : Bool → List IndexEntry → List ℕ → List Bytes → List ℕ
unfolding get_posting_list intersect_posting_lists union_posting_lists
combine is_and dict final_pl [] = final_pl
combine is_and dict final_pl (token ∷ ts) =
    let current = or_empty (get_posting_list dict token) in
    combine is_and dict
      (if is_and
        then intersect_posting_lists final_pl current
        else union_posting_lists final_pl current)
      ts

unfoldable pub query_terms : Bool → List IndexEntry → List Bytes → List ℕ
unfolding combine
query_terms is_and dict [] = []
query_terms is_and dict (token ∷ ts) =
    combine is_and dict (or_empty (get_posting_list dict token)) ts

-- The indices that `store_query_by_index` finds; the results are the entries at them.
unfoldable pub query_indices : List IndexEntry → Option Bytes → Bool → ℕ → List ℕ
unfolding query_terms
query_indices dict none is_and max_count = []
query_indices dict (some s) is_and max_count =
    take max_count (query_terms is_and dict (tokens (codes " ") (take 255 s)))

abbrev pub entries_at : List LogEntry → List ℕ → List LogEntry
entries_at es [] = []
entries_at es (i ∷ is) = get_or es i Entry.blank ∷ entries_at es is

unfoldable pub query_by_index : LogStore → Option Bytes → Bool → ℕ → List LogEntry
unfolding query_indices
query_by_index s query_str is_and max_count =
    entries_at s.entries (query_indices s.index query_str is_and max_count)
