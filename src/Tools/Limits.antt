-- ===== src/Tools/Limits.antt =====
-- The options that the command line of the query tool gives.
use vector_clock_good.Common.{
  ℕ, ◌≤◌, arith, ℤ, pos, negsuc, true, false, if◌then◌else◌, List, [], ◌∷◌, length, length-take,
  Bytes, codes, str_eq, atoi,
}
use vector_clock_good.Tools.{onward, stop_usage, stop_failed, value_then}
use vector_clock_good.Tools.Arguments.{Keeps, Keeps-if, Keeps-value_then}
use vector_clock_good.Tools.Query as QueryTool
use vector_clock_good.Tools.Query.{Options, with_sort, with_dot, count_or}

-- At least one result, and a directory that fits its array.
pub record IsLimited (o : Options) : Type 0 where
  pub some_results : 1 ≤ o.max_results
  pub storage_dir : length o.storage_dir ≤ 255

count_or-positive : (i : ℤ) → 1 ≤ count_or i
count_or-positive (pos n) = ground arith
count_or-positive (negsuc n) = omega arith

with_sort-Keeps :
    (o : Options) (rest : List Bytes) (v : Bytes) (n : ℕ)
    → IsLimited o
    → length rest ≤ n
    → Keeps IsLimited n (with_sort o rest v)
with_sort-Keeps o rest v n b l =
    Keeps-if IsLimited n (str_eq v (codes "causal")) _ _
      (λ e. (record { some_results = b.some_results; storage_dir = b.storage_dir }, l))
      (λ e.
        Keeps-if IsLimited n (str_eq v (codes "time")) _ _
          (λ e. (record { some_results = b.some_results; storage_dir = b.storage_dir }, l))
          (λ e.
            Keeps-if IsLimited n (str_eq v (codes "node")) _ _
              (λ e. (record { some_results = b.some_results; storage_dir = b.storage_dir }, l))
              (λ e. tt)))

with_dot-Keeps :
    (o : Options) (rest : List Bytes)
    → IsLimited o
    → Keeps IsLimited (length rest) (with_dot o rest)
with_dot-Keeps o [] b = (b, omega arith)
with_dot-Keeps o (v ∷ rest) b =
    (record { some_results = b.some_results; storage_dir = b.storage_dir }, omega arith)

-- The options from the count on.
late_option-Keeps :
    (o : Options) (arg : Bytes) (rest : List Bytes)
    → IsLimited o
    → Keeps IsLimited (length rest) (
        if str_eq arg (codes "-c")
        then value_then rest (λ v rest. onward (record o { max_results = count_or (atoi v) }) rest)
        else if str_eq arg (codes "--sort")
        then value_then rest (λ v rest. with_sort o rest v)
        else if str_eq arg (codes "--stats")
        then onward (record o { stats_only = true }) rest
        else if str_eq arg (codes "-h")
        then stop_usage
        else if str_eq arg (codes "--or")
        then onward (record o { is_and_mode = false }) rest
        else if str_eq arg (codes "--dot")
        then with_dot o rest
        else stop_failed)
late_option-Keeps o arg rest b =
    let n = length rest in
    let P = IsLimited in
    Keeps-if P n (str_eq arg (codes "-c")) _ _
      (λ e. Keeps-value_then P rest _ (λ v rest l.
        (record { some_results = count_or-positive (atoi v); storage_dir = b.storage_dir }, l)))
      (λ e.
        Keeps-if P n (str_eq arg (codes "--sort")) _ _
          (λ e. Keeps-value_then P rest _ (λ v rest l. with_sort-Keeps o rest v n b l))
          (λ e.
            Keeps-if P n (str_eq arg (codes "--stats")) _ _
              (λ e. (
                record { some_results = b.some_results; storage_dir = b.storage_dir },
                omega arith,
              ))
              (λ e.
                Keeps-if P n (str_eq arg (codes "-h")) _ _ (λ e. tt)
                  (λ e.
                    Keeps-if P n (str_eq arg (codes "--or")) _ _
                      (λ e. (
                        record { some_results = b.some_results; storage_dir = b.storage_dir },
                        omega arith,
                      ))
                      (λ e.
                        Keeps-if P n (str_eq arg (codes "--dot")) _ _ (λ e. with_dot-Keeps o rest b)
                          (λ e. tt))))))

pub query_option-Keeps :
    (o : Options) (arg : Bytes) (rest : List Bytes)
    → IsLimited o
    → Keeps IsLimited (length rest) (QueryTool.option o arg rest)
unfolding QueryTool.option
query_option-Keeps o arg rest b =
    let n = length rest in
    let P = IsLimited in
    Keeps-if P n (str_eq arg (codes "-d")) _ _
      (λ e. Keeps-value_then P rest _ (λ v rest l. (
        record { some_results = b.some_results; storage_dir = omega (arith, length-take 255 v) },
        l,
      )))
      (λ e.
        Keeps-if P n (str_eq arg (codes "-k")) _ _
          (λ e. Keeps-value_then P rest _ (λ v rest l.
            (record { some_results = b.some_results; storage_dir = b.storage_dir }, l)))
          (λ e.
            Keeps-if P n (str_eq arg (codes "-n")) _ _
              (λ e. Keeps-value_then P rest _ (λ v rest l.
                (record { some_results = b.some_results; storage_dir = b.storage_dir }, l)))
              (λ e.
                Keeps-if P n (str_eq arg (codes "-l")) _ _
                  (λ e. Keeps-value_then P rest _ (λ v rest l.
                    (record { some_results = b.some_results; storage_dir = b.storage_dir }, l)))
                  (λ e.
                    Keeps-if P n (str_eq arg (codes "-s")) _ _
                      (λ e. Keeps-value_then P rest _ (λ v rest l.
                        (record { some_results = b.some_results; storage_dir = b.storage_dir }, l)))
                      (λ e.
                        Keeps-if P n (str_eq arg (codes "-e")) _ _
                          (λ e. Keeps-value_then P rest _ (λ v rest l. (
                            record { some_results = b.some_results; storage_dir = b.storage_dir },
                            l,
                          )))
                          (λ e. late_option-Keeps o arg rest b))))))
