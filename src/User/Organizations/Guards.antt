-- ===== src/User/Organizations/Guards.antt =====
-- Who cannot change an organization: callers who are no admins, and nobody the last admin. Whatever the
-- services reply, nothing is stored and nothing is returned.
use datafoundry_proxy.Base.{
  ◌≡◌, ◌≢◌, refl, ◌⊎◌, inl, inr, Bool, true, false, not, List, [], ◌∷◌, Option, some, Str, str_eq,
  str_eq_iff, All, arith, Bool-cases, ap, sym, ◌∙◌,
}
use datafoundry_proxy.Errors.{GoError}
use datafoundry_proxy.Types.{UserInfo, OrgMember, Orgnazition}
use datafoundry_proxy.Effect.{Result, ok, err, Outcome, M, guard, attempt, ◌>>=◌}
use datafoundry_proxy.Effect.Ensures.{
  Ensures, Returns, Succeeds, Ensures-bind, Ensures-run, Ensures-lift, Ensures-guard,
  Ensures-attempt, Ensures-panic,
}
use datafoundry_proxy.Json.Codec.{Value, read_org}
use datafoundry_proxy.Paths.{etcd_org_path}
use datafoundry_proxy.Backend.{Backend}
use datafoundry_proxy.Backend.Laws.{Laws}
use datafoundry_proxy.Store.{get_value, org_get}
use datafoundry_proxy.Store.Success.{HasOrg, IsSame}
use datafoundry_proxy.Org.{is_admin_loop, is_admin, is_last_admin}
use datafoundry_proxy.Org.Members.{joined_admins}
use datafoundry_proxy.Org.Admins.{is_last_admin_iff}
use datafoundry_proxy.User.Organizations.{
  org_leave, invite_to, invite_result, org_invite, org_remove_member, org_privilege, delete_org,
}

-- No entry of this name is an admin.
abbrev pub NoAdmin : Str → Orgnazition → Type 0
NoAdmin name o = All (λ m. (m.member_name ≢ name) ⊎ (m.is_admin ≡ false)) o.member_list

-- An entry of this name is an admin, and one entry alone is an admin that has joined.
abbrev pub OneAdmin : Str → Orgnazition → Type 0
OneAdmin name o = ¬ NoAdmin name o × (joined_admins o.member_list ≡ 1)

NoAdmin-loop :
    (name : Str) (l : List OrgMember)
    → All (λ m. (m.member_name ≢ name) ⊎ (m.is_admin ≡ false)) l
    → is_admin_loop name l ≡ false
unfolding is_admin_loop
NoAdmin-loop name [] h = refl
NoAdmin-loop name (m ∷ l) (inl other, h) =
    ground (arith, str_eq_iff m.member_name name, NoAdmin-loop name l h)
NoAdmin-loop name (m ∷ l) (inr plain, h) = ground (arith, NoAdmin-loop name l h)

loop-NoAdmin :
    (name : Str) (l : List OrgMember)
    → is_admin_loop name l ≡ false
    → All (λ m. (m.member_name ≢ name) ⊎ (m.is_admin ≡ false)) l
unfolding is_admin_loop
loop-NoAdmin name [] h = tt
loop-NoAdmin name (m ∷ l) h = (first (Bool-cases m.is_admin), loop-NoAdmin name l (ground arith))
  where
    first :
        (m.is_admin ≡ true) ⊎ (m.is_admin ≡ false) → (m.member_name ≢ name) ⊎ (m.is_admin ≡ false)
    first (inl admin) = inl (λ same. ground (arith, str_eq_iff m.member_name name))
    first (inr plain) = inr plain

OneAdmin-is_last_admin :
    (name : Str) (o : Orgnazition) → OneAdmin name o → is_last_admin o name ≡ true
unfolding is_admin
OneAdmin-is_last_admin name o (there, one) =
    (is_last_admin_iff o name).1 (listed (Bool-cases (is_admin_loop name o.member_list)), one)
  where
    listed :
        (is_admin_loop name o.member_list ≡ true) ⊎ (is_admin_loop name o.member_list ≡ false)
        → is_admin_loop name o.member_list ≡ true
    listed (inl e) = e
    listed (inr e) = absurd (there (loop-NoAdmin name o.member_list e))

guard_shut : (b : Bool) → b ≡ false → b ≡ true → ⊥
guard_shut b e h = cc

module _ {W : Type 0} (B : Backend W) (stored : W → Str → Option Value) (L : Laws B stored)
    (id : Str) (w : W) where
  -- The action leaves the store as it is in `w`, and does not return.
  abbrev Refuses : {A : Type 0} → M W A → Type 0
  Refuses m = Ensures (IsSame stored w) m (λ _. ⊥)

  refused_guard :
      {A : Type 0} (b : Bool) (e : GoError) (f : Unit {0} → M W A)
      → b ≡ false
      → Refuses (guard b e >>= f)
  refused_guard b e f shut =
      Ensures-bind (λ _. b ≡ true) (guard b e) f (Ensures-guard b e)
        (λ u open_. absurd (guard_shut b shut open_))

  any_guard :
      {A : Type 0} (b : Bool) (e : GoError) (f : Unit {0} → M W A)
      → ((u : Unit {0}) → Refuses (f u))
      → Refuses (guard b e >>= f)
  any_guard b e f next =
      Ensures-bind (λ _. b ≡ true) (guard b e) f (Ensures-guard b e) (λ u _. next u)

  -- What is read is what is stored.
  org_get-HasOrg : Ensures (IsSame stored w) (org_get B id) (λ o. HasOrg stored w id o)
  unfolding org_get get_value
  org_get-HasOrg =
      Ensures-bind (λ v. stored w (etcd_org_path id) ≡ some v) _ _
        (Ensures-run _ (B.etcd_get (etcd_org_path id))
          (λ w' same k. L.get_keeps (etcd_org_path id) k w' ∙ same k)
          (λ w' v same e. sym (same (etcd_org_path id)) ∙ L.get_ok (etcd_org_path id) v w' e))
        (λ v there. Ensures-lift (read_org v) (found v there (read_org v) refl))
    where
      found :
          (v : Value)
          → stored w (etcd_org_path id) ≡ some v
          → (r : Result Orgnazition) → read_org v ≡ r
          → Succeeds (λ o. HasOrg stored w id o) r
      found v there (ok o) e = (v, there, e)
      found v there (err x) e = tt

  after_read :
      {A : Type 0} (f : Orgnazition → M W A)
      → ((o : Orgnazition) → HasOrg stored w id o → Refuses (f o))
      → Refuses (org_get B id >>= f)
  after_read f h = Ensures-bind (λ o. HasOrg stored w id o) (org_get B id) f org_get-HasOrg h

  -- The end of a refused action: the store is the same, and no value has been returned.
  abbrev pub Refused : {A : Type 0} → Outcome A × W → Type 0
  Refused r = IsSame stored w r.1 × Returns (λ _. ⊥) r.0

  refused : {A : Type 0} (m : M W A) → Refuses m → Refused (m w)
  refused m h = h.at w (λ k. refl)

  module _ (user : UserInfo) (member : OrgMember)
      (no_admin : (o : Orgnazition) → HasOrg stored w id o → NoAdmin user.username o) where
    shut : (o : Orgnazition) → HasOrg stored w id o → is_admin o user.username ≡ false
    unfolding is_admin
    shut o has = NoAdmin-loop user.username o.member_list (no_admin o has)

    invite-Refuses : Refuses (org_invite B user member id)
    unfolding org_invite invite_to
    invite-Refuses =
        Ensures-bind (Succeeds (λ o. HasOrg stored w id o)) (attempt (org_get B id))
          (invite_result B user member) (Ensures-attempt (org_get B id) org_get-HasOrg) answered
      where
        answered :
            (r : Result Orgnazition)
            → Succeeds (λ o. HasOrg stored w id o) r
            → Refuses (invite_result B user member r)
        answered (ok o) has = refused_guard (is_admin o user.username) _ _ (shut o has)
        answered (err e) has = Ensures-panic

    -- A caller who is listed as an admin in no organization that is stored under the id can neither
    -- invite anybody to it, nor remove a member, nor change a privilege, its own included, nor delete it:
    -- whatever the requests hold and the services reply, each of the four operations ends without a
    -- value, and nothing of the store has changed.
    pub non_admin-Refused :
        Refused (org_invite B user member id w)
        × Refused (org_remove_member B user member id w)
        × Refused (org_privilege B user member id w)
        × Refused (delete_org B user id w)
    unfolding org_remove_member org_privilege delete_org
    non_admin-Refused = (
      refused _ invite-Refuses,
      refused _ (
          any_guard (not (str_eq user.username member.member_name)) _ _
            (λ u. after_read _ (λ o has. refused_guard _ _ _ (shut o has)))),
      refused _ (after_read _ (λ o has. refused_guard _ _ _ (shut o has))),
      refused _ (after_read _ (λ o has. refused_guard _ _ _ (shut o has))),
    )

  -- Where one entry alone of the organization that is stored under the id is an admin that has joined,
  -- and the user is listed as an admin, the user cannot leave, and nobody can change a privilege of the
  -- user: both operations end without a value, whatever the services reply, and nothing of the store
  -- has changed.
  pub last_admin-Refused :
      (last by : UserInfo) (member : OrgMember)
      → member.member_name ≡ last.username
      → ((o : Orgnazition) → HasOrg stored w id o → OneAdmin last.username o)
      → Refused (org_leave B last id w) × Refused (org_privilege B by member id w)
  unfolding org_leave org_privilege
  last_admin-Refused last by member same one = (
    refused _ (after_read _ (λ o has. refused_guard _ _ _ (restricted o has))),
    refused _ (
        after_read _ (λ o has.
          any_guard (is_admin o by.username) _ _
            (λ u. refused_guard _ _ _ (rw same (restricted o has))))),
  )
    where
      restricted :
          (o : Orgnazition) → HasOrg stored w id o → not (is_last_admin o last.username) ≡ false
      restricted o has = ap not (OneAdmin-is_last_admin last.username o (one o has))
