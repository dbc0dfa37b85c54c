-- ===== src/Common/Relations/Laws.antt =====
-- Which relations are allowed, checked and listed.
use role_provider_service.Base.{
  ℕ, refl, ◌≡◌, ◌≢◌, ◌↔◌, ◌⊎◌, inl, inr, true, false, List, [], ◌∷◌, map, Memᴰ, Memᴰ-cons, Memᴰ-nil,
  not, ◌==◌, nat_eq, list_eq, all, sort, arith, Text, contains_iff, list_beq_iff, is_empty_iff, All,
  Sorted, text_leb, text_leb_total, text_leb_trans, sort-Sorted, subst, mem-sort, mem-filter,
  filter, All-of_all,
}
use role_provider_service.Base.Result.{ok, Result-cases}
use role_provider_service.Common.Strings.{trim_space, lower_char, is_space}
use role_provider_service.Common.Token.{relation_member, normalize_relation}
use role_provider_service.Common.Token.Normal.{Plain, trim_space-eq}
use role_provider_service.Common.Relations.{
  Relations, relation_char, relation_name, add_allowed, add_names, new_relations, check, list,
}

mem-add_allowed :
    (allowed : List Text) (n m : Text) → Memᴰ m (add_allowed allowed n) ↔ ((m ≡ n) ⊎ Memᴰ m allowed)
unfolding add_allowed
mem-add_allowed allowed n m = ground (arith, contains_iff allowed n, Memᴰ-cons m n allowed)

relation_name_nil : relation_name [] ≡ false
unfolding relation_name
relation_name_nil = refl

mem-add_names :
    (allowed names out : List Text) (n : Text)
    → add_names allowed names ≡ ok out
    → Memᴰ n out ↔ (Memᴰ n allowed ⊎ (relation_name n ≡ true) × Memᴰ n (map trim_space names))
unfolding add_names
mem-add_names allowed [] out n h = ground (arith, Memᴰ-nil n)
mem-add_names allowed (x ∷ names) out n h = ground (
  arith,
  mem-add_names allowed names out n,
  mem-add_names (add_allowed allowed (trim_space x)) names out n,
  mem-add_allowed allowed (trim_space x) n,
  Memᴰ-cons n (trim_space x) (map trim_space names),
  is_empty_iff (trim_space x),
  relation_name_nil,
)

-- The relations that a configuration allows are "member" and its names that have the shape of a
-- relation's name; and it is accepted only if no other name than a blank one stands in it.
pub mem-new_relations :
    (names : List Text) (r : Relations) (n : Text)
    → new_relations names ≡ ok r
    → Memᴰ n r.allowed
      ↔ ((n ≡ relation_member) ⊎ (relation_name n ≡ true) × Memᴰ n (map trim_space names))
unfolding new_relations
mem-new_relations names r n h = elim (Result-cases (add_names (relation_member ∷ []) names)) [
  | inl (out, e) ↦ ground (
    arith,
    mem-add_names (relation_member ∷ []) names out n e,
    Memᴰ-cons n relation_member [],
    Memᴰ-nil n,
  )
  | inr (x, e) ↦ ground arith
]

-- Characters that a token cannot take apart.
abbrev pub Joinable : ℕ → Type 0
Joinable c = (c ≢ b'#') × (c ≢ b':')

relation_char-Plain : (c : ℕ) → relation_char c ≡ true → Joinable c × Plain c
unfolding relation_char is_space lower_char
relation_char-Plain c h = ground arith

relation_name-all : (n : Text) → relation_name n ≡ true → (n ≢ []) × (all relation_char n ≡ true)
unfolding relation_name
relation_name-all [] h = absurd (cc)
relation_name-all (c ∷ s) h = (ground arith, ground arith)

relation_name-normal :
    (n : Text) → relation_name n ≡ true → (normalize_relation (trim_space n) ≡ n) × All Joinable n
unfolding normalize_relation
relation_name-normal n h =
    let (some_char, shape) = relation_name-all n h in
    (
      rw
          (trim_space-eq n
            (All-of_all Plain relation_char (λ c e. (relation_char-Plain c e).1) n shape))
          (ground (arith, is_empty_iff n)),
      All-of_all Joinable relation_char (λ c e. (relation_char-Plain c e).0) n shape,
    )

member-relation_name : relation_name relation_member ≡ true
unfolding relation_name
member-relation_name = refl

-- What a request asks for: "member" if it is blank, else the text without the spaces around it.
abbrev pub AsksFor : Text → Text → Type 0
AsksFor relation rel =
    ((trim_space relation ≡ []) × (rel ≡ relation_member))
    ⊎ ((trim_space relation ≢ []) × (rel ≡ trim_space relation))

-- "member", or one of the configured names that has the shape of a relation's name.
abbrev pub Configured : List Text → Text → Type 0
Configured names rel =
    (rel ≡ relation_member) ⊎ (relation_name rel ≡ true) × Memᴰ rel (map trim_space names)

asked : (relation : Text) → AsksFor relation (normalize_relation (trim_space relation))
unfolding normalize_relation
asked relation = ground (arith, is_empty_iff (trim_space relation))

asked-eq :
    (relation rel : Text) → AsksFor relation rel → normalize_relation (trim_space relation) ≡ rel
unfolding normalize_relation
asked-eq relation rel h = ground (arith, is_empty_iff (trim_space relation))

pub check_iff :
    (r : Relations) (relation rel : Text)
    → (check r relation ≡ ok rel) ↔ (AsksFor relation rel × Memᴰ rel r.allowed)
unfolding check
check_iff r relation rel =
    let asks = normalize_relation (trim_space relation) in
    (
      λ h.
          (let (same, m) : (asks ≡ rel) × Memᴰ asks r.allowed =
              ground (arith, contains_iff r.allowed asks) in
            (subst (AsksFor relation) same (asked relation), subst (λ n. Memᴰ n r.allowed) same m)),
      λ (a, m).
          (let same = asked-eq relation rel a in
            ground (arith, contains_iff r.allowed asks, contains_iff r.allowed rel)),
    )

-- Under an accepted configuration a check gives a relation exactly if the request asks for that one and
-- it is "member" or configured; all else is refused. The relation is not blank, can stand in a token, and
-- passes the check unchanged.
pub check-new_relations :
    (names : List Text) (r : Relations) (relation rel : Text)
    → new_relations names ≡ ok r
    → ((check r relation ≡ ok rel) ↔ (AsksFor relation rel × Configured names rel))
      × (check r relation ≡ ok rel → (rel ≢ []) × All Joinable rel × (check r rel ≡ ok rel))
unfolding check
check-new_relations names r relation rel made =
    let checked = check_iff r relation rel in
    let allowed = mem-new_relations names r rel made in
    (
      (λ h. (let (a, m) = checked.0 h in (a, allowed.0 m)), λ (a, c). checked.1 (a, allowed.1 c)),
      λ h.
          (let mem = (checked.0 h).1 in
            let named : relation_name rel ≡ true =
              ground (arith, mem, allowed, member-relation_name) in
            let (same, joinable) = relation_name-normal rel named in
            (
              (relation_name-all rel named).0,
              joinable,
              rw (same, (contains_iff r.allowed rel).1 mem) refl,
            )),
    )

-- `list` gives "member" first, then the other allowed relations in the order of texts.
pub list-Sorted :
    (r : Relations)
    → (rest : List Text) × (list r ≡ relation_member ∷ rest)
      × Sorted text_leb rest
      × ((n : Text) → Memᴰ n rest ↔ (Memᴰ n r.allowed × (n ≢ relation_member)))
unfolding list
list-Sorted r =
    let others = filter (λ n. not (n == relation_member)) r.allowed in
    (
      sort text_leb others,
      refl,
      sort-Sorted text_leb text_leb_total text_leb_trans others,
      λ n. ground (
        arith,
        mem-sort text_leb n others,
        mem-filter (λ (m : Text). not (m == relation_member)) n r.allowed,
        list_beq_iff n relation_member,
      ),
    )
