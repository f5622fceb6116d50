-- ===== src/Apps/Order.antt =====
-- `cmp_app_entry`: the order in which the browser shows the applications.
pub mod Flip
use hbc.Base.{
  ℕ, ◌+◌, ◌*◌, ◌^◌, Bool, true, false, not, ◌||◌, ◌&&◌, Option, none, some, List, [], ◌∷◌, ◌++◌,
  if◌then◌else◌, ltb, ◌==◌,
}
use hbc.Base.Word.{sub32}
use hbc.Apps.Text.{Text, Sign, negative, zero_sign, positive, strcasecmp}
use hbc.Apps.Entry.{AppEntry, Meta}

-- `app_sort`.
pub data AppSort : Type 0 where
  sort_name sort_date sort_size : AppSort

-- A u32 converted to int: its sign.
unfoldable pub int_sign : ℕ → Sign
int_sign v = if v == 0 then zero_sign else if ltb v (2 ^ 31) then positive else negative

-- Both have a `meta`, and the sort is by date.
unfoldable pub cmp_date : ℕ → ℕ → Sign
cmp_date d1 d2 =
    if d1 == 0 && d2 == 0
    then zero_sign
    else if d1 == 0 && not (d2 == 0)
    then negative
    else if not (d1 == 0) && d2 == 0
    then positive
    else if ltb d2 d1
    then positive
    else negative

-- The last tests: by the two names, or by the directories if neither has a name.
unfoldable pub cmp_name : Option Text → Option Text → Text → Text → Sign
cmp_name none none dir1 dir2 = strcasecmp dir1 dir2
cmp_name none (some n2) dir1 dir2 = positive
cmp_name (some n1) none dir1 dir2 = negative
cmp_name (some n1) (some n2) dir1 dir2 = strcasecmp n1 n2

-- Both have a `meta`.
unfoldable pub cmp_meta : AppSort → AppEntry → AppEntry → Meta → Meta → Sign
cmp_meta sort_date a1 a2 m1 m2 = cmp_date m1.release_date m2.release_date
cmp_meta sort_size a1 a2 m1 m2 = int_sign (sub32 a2.size a1.size)
cmp_meta sort_name a1 a2 m1 m2 = cmp_name m1.name m2.name a1.dirname a2.dirname

unfoldable pub cmp_metas : AppSort → AppEntry → AppEntry → Option Meta → Option Meta → Sign
unfolding cmp_meta cmp_name cmp_date int_sign
cmp_metas sort a1 a2 none none = strcasecmp a1.dirname a2.dirname
cmp_metas sort a1 a2 none (some m2) = positive
cmp_metas sort a1 a2 (some m1) none = negative
cmp_metas sort a1 a2 (some m1) (some m2) = cmp_meta sort a1 a2 m1 m2

-- `cmp_app_entry`: with `cmp_descending` the two arguments change places.
unfoldable pub cmp_app_entry : AppSort → Bool → AppEntry → AppEntry → Sign
unfolding cmp_metas
cmp_app_entry sort descending p1 p2 =
    if descending
    then cmp_metas sort p2 p1 p2.meta p1.meta
    else cmp_metas sort p1 p2 p1.meta p2.meta
