-- ===== src/Desired/Profiles/Free.antt =====
-- db/profiles.rs: the built-in profile is the only one of mode free, and is never lost or edited.
use warpdeck.Prelude.{
  ℕ, ◌<◌, ◌≡◌, sym, subst, ◌≢◌, true, false, Option, some, List, [], ◌∷◌, arith, ltb, Option-cases,
  Bool-cases, ◌⊎◌, inl, inr,
}
use warpdeck.Prelude.Map
use warpdeck.Prelude.Map.{get-insert, get-update, get-remove}
use warpdeck.Desired.{
  AccountMode, AccountProfile, Profiles, Database, next_id, count_bound,
  mark_restart_pending_by_profile,
}
use warpdeck.Desired.Profiles.{
  default_profile_id, is_free, count_free, create, update, edit, delete, edited, write_profile,
  name_exists, count_free_others, update_profile_with_credentials,
}

-- Profile 1 is there and is free, and no other is free.
pub record IsReserved (ps : Profiles) : Type 0 where
  pub default : AccountProfile
  pub found : Map.get default_profile_id ps ≡ some default
  pub free : is_free default.mode ≡ true
  pub only :
      (k : ℕ) (p : AccountProfile)
      → Map.get k ps ≡ some p
      → is_free p.mode ≡ true
      → k ≡ default_profile_id

count_free_pos :
    (k : ℕ) (p : AccountProfile) (ps : Profiles)
    → Map.get k ps ≡ some p
    → is_free p.mode ≡ true
    → 0 < count_free ps
unfolding count_free Map.get
count_free_pos k p [] found f = absurd (ground arith)
count_free_pos k p ((j, q) ∷ ps) found f = ground (arith, count_free_pos k p ps)

count_free_others_pos :
    (id k : ℕ) (p : AccountProfile) (ps : Profiles)
    → Map.get k ps ≡ some p
    → is_free p.mode ≡ true
    → id ≢ k
    → 0 < count_free_others id ps
unfolding count_free_others Map.get
count_free_others_pos id k p [] found f ne = absurd (ground arith)
count_free_others_pos id k p ((j, q) ∷ ps) found f ne =
    ground (arith, count_free_others_pos id k p ps)

get-lt_next_id :
    (k : ℕ) (p : AccountProfile) (ps : Profiles) → Map.get k ps ≡ some p → k < next_id ps
unfolding next_id Map.get
get-lt_next_id k p [] found = absurd (ground arith)
get-lt_next_id k p ((j, q) ∷ ps) found = ground (arith, get-lt_next_id k p ps)

create-IsReserved :
    (name : List ℕ) (mode : AccountMode) (org : Option (List ℕ)) (d : Database)
    → IsReserved d.profiles
    → IsReserved (create name mode org d).1.profiles
unfolding create
create-IsReserved name mode org d r =
    let id = next_id d.profiles in
    let profile : AccountProfile = record {
      id = id;
      name = name;
      mode = mode;
      zero_trust_org = org;
    } in
    let lt = get-lt_next_id default_profile_id r.default d.profiles r.found in
    let pos = count_free_pos default_profile_id r.default d.profiles r.found r.free in
    record {
      default = r.default;
      found = ground (arith, lt, r.found, get-insert id default_profile_id profile d.profiles);
      free = r.free;
      only = λ k p found f. ground (arith, pos, r.only k p, get-insert id k profile d.profiles);
    }

-- A write of one row that neither is the default one nor becomes free.
update_row-IsReserved :
    (id : ℕ) (name : List ℕ) (mode : AccountMode) (org : Option (List ℕ)) (before : AccountProfile)
    (ps : Profiles)
    → Map.get id ps ≡ some before
    → is_free before.mode ≡ false
    → is_free mode ≡ false
    → IsReserved ps
    → IsReserved (Map.update id (edited name mode org) ps)
update_row-IsReserved id name mode org before ps found nf nm r = record {
  default = r.default;
  found =
      ground (arith, r.found, r.free, get-update id default_profile_id (edited name mode org) ps);
  free = r.free;
  only = λ k p q f.
      ground
        (arith, r.only k p, get-update id k (edited name mode org) ps, Option-cases (Map.get k ps));
}

module _ (id : ℕ) (name : List ℕ) (mode : AccountMode) (org : Option (List ℕ)) (d : Database)
    (r : IsReserved d.profiles) where
  -- An edit of the row writes it, or leaves the profiles alone.
  abbrev written : Profiles
  written = Map.update id (edited name mode org) d.profiles

  abbrev IsWrite : Profiles → Type 0
  IsWrite ps =
      (ps ≡ d.profiles)
      ⊎ ((before : AccountProfile) × (Map.get id d.profiles ≡ some before)
          × (is_free before.mode ≡ false)
          × (is_free mode ≡ false)
          × (ps ≡ written))

  write-IsReserved : {ps : Profiles} → IsWrite ps → IsReserved ps
  write-IsReserved (inl same) = subst IsReserved (sym same) r
  write-IsReserved (inr (before, p, nf, nm, e)) =
      subst IsReserved (sym e) (update_row-IsReserved id name mode org before d.profiles p nf nm r)

  update-IsWrite : IsWrite (update id name mode org d).1.profiles
  unfolding update write_profile mark_restart_pending_by_profile
  update-IsWrite =
      let pos = count_free_pos default_profile_id r.default d.profiles r.found r.free in
      elim (Option-cases (Map.get id d.profiles)) [
        | inl p ↦ inl (ground (arith, p))
        | inr (before, p) ↦ elim (Bool-cases (is_free before.mode)) [
          | inl f ↦ inl (ground (arith, p, f))
          | inr nf ↦ elim (Bool-cases (is_free mode)) [
            | inl f ↦ inl (ground (arith, p, nf, f, pos))
            | inr nm ↦ elim (Bool-cases (name_exists id name d.profiles)) [
              | inl taken ↦ inl (ground (arith, p, nf, nm, taken))
              | inr ok ↦ inr (before, p, nf, nm, ground (arith, p, nf, nm, ok))
            ]
          ]
        ]
      ]

  edit-IsWrite : IsWrite (edit (λ d. d) (λ d. d) id name mode org d).1.profiles
  unfolding edit update_profile_with_credentials
  edit-IsWrite = elim (Option-cases (Map.get id d.profiles)) [
    | inl p ↦ inl (ground (arith, p))
    | inr (before, p) ↦ elim (Bool-cases (is_free before.mode)) [
      | inl f ↦ inl (ground (arith, p, f))
      | inr nf ↦
          let pos =
            count_free_others_pos id default_profile_id r.default d.profiles r.found r.free in
          let other : id ≢ default_profile_id = λ e. ground (arith, r.found, r.free) in
          elim (Bool-cases (is_free mode)) [
            | inl f ↦ inl (ground (arith, p, nf, f, pos other))
            | inr nm ↦ elim (Bool-cases (ltb 0 (count_bound id d.rows))) [
              | inl used ↦ inl (ground (arith, p, nf, used))
              | inr unused ↦ elim (Bool-cases (name_exists id name d.profiles)) [
                | inl taken ↦ inl (ground (arith, p, nf, nm, taken, unused))
                | inr ok ↦ inr (before, p, nf, nm, ground (arith, p, nf, nm, ok, unused))
              ]
            ]
          ]
    ]
  ]

delete-IsReserved :
    (id : ℕ) (d : Database) → IsReserved d.profiles → IsReserved (delete id d).1.profiles
unfolding delete
delete-IsReserved id d r = record {
  default = r.default;
  found = ground (arith, r.found, get-remove id default_profile_id d.profiles);
  free = r.free;
  only = λ k p q f. ground (arith, r.only k p, get-remove id k d.profiles);
}

pub data ProfileCall : Type 0 where
  create_call : List ℕ → AccountMode → Option (List ℕ) → ProfileCall
  update_call edit_call : ℕ → List ℕ → AccountMode → Option (List ℕ) → ProfileCall
  delete_call : ℕ → ProfileCall

unfoldable pub profile_call : ProfileCall → Database → Database
unfolding create update edit delete
profile_call (create_call name mode org) d = (create name mode org d).1
profile_call (update_call id name mode org) d = (update id name mode org d).1
profile_call (edit_call id name mode org) d = (edit (λ d. d) (λ d. d) id name mode org d).1
profile_call (delete_call id) d = (delete id d).1

profile_call-IsReserved :
    (c : ProfileCall) (d : Database)
    → IsReserved d.profiles
    → IsReserved (profile_call c d).profiles
unfolding profile_call
profile_call-IsReserved (create_call name mode org) d r = create-IsReserved name mode org d r
profile_call-IsReserved (update_call id name mode org) d r =
    write-IsReserved id name mode org d r (update-IsWrite id name mode org d r)
profile_call-IsReserved (edit_call id name mode org) d r =
    write-IsReserved id name mode org d r (edit-IsWrite id name mode org d r)
profile_call-IsReserved (delete_call id) d r = delete-IsReserved id d r

unfoldable pub profile_calls : List ProfileCall → Database → Database
profile_calls [] d = d
profile_calls (c ∷ cs) d = profile_calls cs (profile_call c d)

-- Whatever sequence of profiles is created, updated, edited through the API and deleted, one call after the
-- other: if profile 1 is there, is free and is the only free one, it stays so.
pub profile_calls-IsReserved :
    (cs : List ProfileCall) (d : Database)
    → IsReserved d.profiles
    → IsReserved (profile_calls cs d).profiles
unfolding profile_calls
profile_calls-IsReserved [] d r = r
profile_calls-IsReserved (c ∷ cs) d r =
    profile_calls-IsReserved cs (profile_call c d) (profile_call-IsReserved c d r)
