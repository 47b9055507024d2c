-- ===== src/Hosts/Tags.antt =====
-- usecase/headless_host_usecase.go: which tag a new container gets.
use baru_reso_headless_contr.Prelude.{
  ap, ◌≡◌, refl, Bool, true, false, Option, none, some, List, [], ◌∷◌, ◌++◌, String, All, Result,
  ok, err, arith, Bool-cases, Option-cases, inl, inr,
}
use baru_reso_headless_contr.Hosts.{
  Tag, same_bool, asks_latest, wants_pre_release, latest, tag_or_err, resolve_tag_to_use,
}

-- The last entry of its kind in the listing.
pub record Latest (want : Bool) (tags : List Tag) (name : String) : Type 0 where
  pub before : List Tag
  pub entry : Tag
  pub after : List Tag
  pub split : tags ≡ before ++ entry ∷ after
  pub named : entry.tag ≡ name
  pub of_kind : same_bool entry.is_pre_release want ≡ true
  pub none_later : All (λ t. same_bool t.is_pre_release want ≡ false) after

latest-none :
    (want : Bool) (tags : List Tag)
    → latest want tags ≡ none
    → All (λ t. same_bool t.is_pre_release want ≡ false) tags
unfolding latest
latest-none want [] h = tt
latest-none want (t ∷ ts) h = elim (Option-cases (latest want ts)) [
  | inl nothing ↦ (ground (arith, nothing, h), latest-none want ts nothing)
  | inr (x, later) ↦ absurd (ground (arith, later, h))
]

latest-Latest :
    (want : Bool) (tags : List Tag) (name : String)
    → latest want tags ≡ some name
    → Latest want tags name
unfolding latest
latest-Latest want [] name h = cc
latest-Latest want (t ∷ ts) name h = elim (Option-cases (latest want ts)) [
  | inl nothing ↦ record {
    before = [];
    entry = t;
    after = ts;
    split = refl;
    named = ground (arith, nothing, h);
    of_kind = ground (arith, nothing, h);
    none_later = latest-none want ts nothing;
  }
  | inr (x, later) ↦
      let l = latest-Latest want ts name (ground (arith, later, h)) in
      record {
        before = t ∷ l.before;
        entry = l.entry;
        after = l.after;
        split = ap (λ xs. t ∷ xs) l.split;
        named = l.named;
        of_kind = l.of_kind;
        none_later = l.none_later;
      }
]

-- What the caller asked for, or the last entry of the listing of the kind that it asked for.
pub data Resolved (listing : Result (List Tag)) (input : Option String) (name : String)
    : Type 0 where
  as_given : asks_latest input ≡ false → input ≡ some name → Resolved listing input name
  latest_of :
      (tags : List Tag)
      → asks_latest input ≡ true
      → listing ≡ ok tags
      → Latest (wants_pre_release input) tags name
      → Resolved listing input name

resolved_tag :
    (want : Bool) (tags : List Tag) (name : String)
    → tag_or_err (latest want tags) ≡ ok name
    → Latest want tags name
resolved_tag want tags name h = elim (Option-cases (latest want tags)) [
  | inl nothing ↦ absurd (ground (arith, nothing, h))
  | inr (x, found) ↦ latest-Latest want tags name (ground (arith, found, h))
]

-- A tag that `resolveTagToUse` gives is the caller's own, unless that is absent, empty or
-- one of the two names for the latest: then it is the last listed one of the kind, pre-releases
-- only for "latestPreRelease".
pub resolve_tag_to_use-Resolved :
    (listing : Result (List Tag)) (input : Option String) (name : String)
    → resolve_tag_to_use listing input ≡ ok name
    → Resolved listing input name
unfolding resolve_tag_to_use
resolve_tag_to_use-Resolved (ok tags) none name h =
    latest_of tags refl refl (resolved_tag false tags name h)
resolve_tag_to_use-Resolved (err e) none name h = cc
resolve_tag_to_use-Resolved listing (some t) name h = elim (Bool-cases (asks_latest (some t))) [
  | inl latest_one ↦ go listing latest_one (rw latest_one at h)
  | inr own ↦ as_given own (ground (arith, own, h))
]
  where
    go :
        (listing : Result (List Tag))
        → asks_latest (some t) ≡ true
        → (elim listing [
          | err e ↦ err e
          | ok ts ↦ tag_or_err (latest (wants_pre_release (some t)) ts)
        ])
          ≡ ok name
        → Resolved listing (some t) name
    go (err e) asks p = cc
    go (ok tags) asks p =
        latest_of tags asks refl (resolved_tag (wants_pre_release (some t)) tags name p)
