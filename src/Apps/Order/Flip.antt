-- ===== src/Apps/Order/Flip.antt =====
-- `qsort` wants a comparison that changes its sign with its arguments.
use hbc.Base.{ℕ, ◌^◌, ◌<◌, ◌≡◌, refl, arith, Bool, true, false, Option, none, some}
use hbc.Apps.Text.{Text, flip, strcasecmp-flip}
use hbc.Apps.Entry.{AppEntry, Meta}
use hbc.Apps.Order.{AppSort, sort_name, sort_date, sort_size, cmp_name, cmp_metas, cmp_app_entry}

cmp_name-flip :
    (n1 n2 : Option Text) (d1 d2 : Text) → cmp_name n2 n1 d2 d1 ≡ flip (cmp_name n1 n2 d1 d2)
unfolding cmp_name
cmp_name-flip none none d1 d2 = strcasecmp-flip d1 d2
cmp_name-flip none (some n2) d1 d2 = refl
cmp_name-flip (some n1) none d1 d2 = refl
cmp_name-flip (some n1) (some n2) d1 d2 = strcasecmp-flip n1 n2

-- Release dates that would compare as equal: both set, and the same.
abbrev pub date_of : Option Meta → ℕ
date_of none = 0
date_of (some m) = m.release_date

abbrev pub DatesDiffer : AppSort → AppEntry → AppEntry → Type 0
DatesDiffer sort_date a b = date_of a.meta ≡ date_of b.meta → date_of a.meta ≡ 0
DatesDiffer _ a b = Unit

DatesDiffer-sym : (sort : AppSort) (a b : AppEntry) → DatesDiffer sort a b → DatesDiffer sort b a
DatesDiffer-sym sort_date a b d = λ e. ground arith
DatesDiffer-sym sort_name a b d = tt
DatesDiffer-sym sort_size a b d = tt

cmp_metas-flip :
    (sort : AppSort) (a b : AppEntry) (m n : Option Meta)
    → a.meta ≡ m
    → b.meta ≡ n
    → a.size < 2 ^ 31
    → b.size < 2 ^ 31
    → DatesDiffer sort a b
    → cmp_metas sort b a n m ≡ flip (cmp_metas sort a b m n)
unfolding cmp_metas
cmp_metas-flip sort a b none none e f ha hb d = strcasecmp-flip a.dirname b.dirname
cmp_metas-flip sort a b none (some n) e f ha hb d = refl
cmp_metas-flip sort a b (some m) none e f ha hb d = refl
cmp_metas-flip sort_name a b (some m) (some n) e f ha hb d =
    cmp_name-flip m.name n.name a.dirname b.dirname
cmp_metas-flip sort_date a b (some m) (some n) e f ha hb d = ground arith
cmp_metas-flip sort_size a b (some m) (some n) e f ha hb d = ground arith

-- Exchanging the two applications changes the sign of cmp_app_entry, in either direction and by
-- each order: for sizes below 2 ^ 31 and, by date, unless both have the same date, which is set.
pub cmp_app_entry-flip :
    (sort : AppSort) (descending : Bool) (a b : AppEntry)
    → a.size < 2 ^ 31
    → b.size < 2 ^ 31
    → DatesDiffer sort a b
    → cmp_app_entry sort descending b a ≡ flip (cmp_app_entry sort descending a b)
unfolding cmp_app_entry
cmp_app_entry-flip sort false a b ha hb d = cmp_metas-flip sort a b a.meta b.meta refl refl ha hb d
cmp_app_entry-flip sort true a b ha hb d =
    cmp_metas-flip sort b a b.meta a.meta refl refl hb ha (DatesDiffer-sym sort a b d)
