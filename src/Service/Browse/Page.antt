-- ===== src/Service/Browse/Page.antt =====
-- A page is a piece of the list, cut where the query says.
use role_provider_service.Base.{
  ℕ, zero, suc, ◌+◌, ◌-◌, ◌≤◌, min, ℤ, pos, negsuc, at_least_zero, ◌≡◌, refl, arith, List, [], ◌++◌,
  map, length, max_int, ◌<◌, ◌⊎◌, inl, inr, ap, some, none, leb, Bool-cases, add_int-pos,
  add_int-negsuc, take, drop, slice, slice-split, length-take, length-slice, drop_all,
}
use role_provider_service.Common.Types.{Group}
use role_provider_service.Store.Listing.{Edge}
use role_provider_service.Service.State.{Service}
use role_provider_service.Service.Browse.{
  GroupPage, BrowseQuery, page_end, at_most, cut_out, browsed, page,
}

-- What the page of a list is, by what stands before and after it.
pub record IsPage (svc : Service) (edges : List Edge) (groups : List Group) (q : BrowseQuery)
    (p : GroupPage) : Type 0 where
  pub before : List Group
  pub shown : List Group
  pub after : List Group
  pub piece : before ++ shown ++ after ≡ groups
  pub skipped : length before ≡ min (at_least_zero q.offset) (length groups)
  pub limited :
      (n : ℕ) → q.limit ≡ pos (suc n) → length shown ≡ min (suc n) (length groups - length before)
  pub unlimited : at_least_zero q.limit ≡ 0 → after ≡ []
  pub items : p.items ≡ map (browsed svc edges) shown
  pub total : p.total ≡ length groups

-- Where the page ends, with a sum that does not wrap.
pub record IsStop (limit : ℤ) (start total stop : ℕ) : Type 0 where
  pub ends : page_end limit start total ≡ pos stop
  pub low : start ≤ stop
  pub counted : (n : ℕ) → limit ≡ pos (suc n) → stop ≡ min (start + suc n) total
  pub open_end : at_least_zero limit ≡ 0 → stop ≡ total

page_end-IsStop :
    (limit : ℤ) (start total : ℕ)
    → start ≤ total
    → start + at_least_zero limit ≤ max_int
    → (stop : ℕ) × IsStop limit start total stop
unfolding page_end at_most
page_end-IsStop (pos zero) start total h fits =
    (total, record { ends = refl; low = h; counted = λ n e. absurd (cc); open_end = λ e. refl })
page_end-IsStop (pos (suc n)) start total h fits = (
  min (start + suc n) total,
  record {
    ends = rw (add_int-pos start (suc n) fits) refl;
    low = ground arith;
    counted = λ m e. ap (λ k. min (start + k) total) (ap at_least_zero e);
    open_end = λ e. absurd (omega arith);
  },
)
page_end-IsStop (negsuc _) start total h fits =
    (total, record { ends = refl; low = h; counted = λ n e. absurd (cc); open_end = λ e. refl })

page_end_wrapped :
    (limit : ℤ) (start total : ℕ)
    → start ≤ max_int
    → max_int < start + at_least_zero limit
    → (n : ℕ) × (page_end limit start total ≡ negsuc n)
unfolding page_end at_most
page_end_wrapped (pos zero) start total small big = absurd (omega arith)
page_end_wrapped (pos (suc n)) start total small big =
    (18446744073709551615 - (start + suc n), rw (add_int-negsuc start (suc n) big) refl)
page_end_wrapped (negsuc _) start total small big = absurd (omega arith)

IsStop-IsPage :
    (svc : Service) (edges : List Edge) (groups : List Group) (q : BrowseQuery) (stop : ℕ)
    → IsStop q.limit (min (at_least_zero q.offset) (length groups)) (length groups) stop
    → (p : GroupPage) × (page svc edges groups q ≡ some p) × IsPage svc edges groups q p
unfolding page cut_out
IsStop-IsPage svc edges groups q stop end =
    let total = length groups in
    let start = min (at_least_zero q.offset) total in
    (
      record { items = map (browsed svc edges) (slice start stop groups); total = total },
      rw (end.ends, page) refl,
      record {
        before = take start groups;
        shown = slice start stop groups;
        after = drop stop groups;
        piece = slice-split start stop groups end.low;
        skipped = ground (arith, length-take start groups);
        limited = λ n e.
            ground
              (arith, length-slice start stop groups, length-take start groups, end.counted n e);
        unlimited = λ none_set. drop_all stop groups (omega (arith, end.open_end none_set));
        items = refl;
        total = refl;
      },
    )

-- A page of groups whose number an int holds either panics or shows a contiguous piece of them. It panics
-- exactly if the groups it skips and the limit, if positive, sum to more than the largest int. A
-- piece skips as many groups as the offset says, at most all of them, a negative offset none; with a positive
-- limit it shows that many of the rest, or all the rest if there are fewer; without one it shows all
-- the rest. The total counts all the groups.
pub page-IsPage :
    (svc : Service) (edges : List Edge) (groups : List Group) (q : BrowseQuery)
    → length groups ≤ max_int
    → ((min (at_least_zero q.offset) (length groups) + at_least_zero q.limit ≤ max_int)
        × (p : GroupPage) × (page svc edges groups q ≡ some p)
        × IsPage svc edges groups q p)
      ⊎ ((max_int < min (at_least_zero q.offset) (length groups) + at_least_zero q.limit)
          × (page svc edges groups q ≡ none))
unfolding page cut_out
page-IsPage svc edges groups q small =
    let total = length groups in
    let start = min (at_least_zero q.offset) total in
    elim (Bool-cases (leb (start + at_least_zero q.limit) max_int)) [
      | inl e ↦
          let fits : start + at_least_zero q.limit ≤ max_int = ground arith in
          let (stop, end) = page_end-IsStop q.limit start total (ground arith) fits in
          let (p, gives, is_page) = IsStop-IsPage svc edges groups q stop end in
          inl (fits, p, gives, is_page)
      | inr e ↦
          let big : max_int < start + at_least_zero q.limit = ground arith in
          let (n, wrapped) = page_end_wrapped q.limit start total (ground arith) big in
          inr (big, rw (wrapped, page) refl)
    ]
