-- ===== src/User/Organizations/Create.antt =====
-- What `CreateOrg` did to the store if it returned.
use datafoundry_proxy.Base.{
  ℕ, zero, suc, ◌≡◌, refl, sym, ap, ◌∙◌, subst, true, false, [], ◌∷◌, ◌++◌, Option, Str, codes,
  length, arith,
}
use datafoundry_proxy.Base.Int.{pos, int64_inc, leb_ℤ}
use datafoundry_proxy.Types.{UserInfo, Orgnazition}
use datafoundry_proxy.Effect.{call}
use datafoundry_proxy.Effect.Ensures.{Any, Ensures, Ensures-pure, Ensures-bind}
use datafoundry_proxy.Effect.Success.{Gives, after_guard, pure-Gives}
use datafoundry_proxy.Json.Codec.{Value}
use datafoundry_proxy.Backend.{Backend}
use datafoundry_proxy.Backend.Laws.{Laws}
use datafoundry_proxy.Store.Success.{
  IsSame, IsStoredOrg, IsStoredUser, ChangesOnly, IsSame-IsOfStore, IsWritten-IsSame,
  IsSame-IsWritten, org_then_user, quiet_call,
}
use datafoundry_proxy.Store.Success.Steps.{
  after_org_create, after_user_update, after_keeping, after_ensuring,
}
use datafoundry_proxy.Project.Keeps.{Keeps-create_project}
use datafoundry_proxy.User.Organizations.Success.{not-true}
use datafoundry_proxy.User.Organizations.{
  creator_member, generated_org_name, with_org_used, create_org,
}

-- The organization that a user makes of a request's body, at this time and with this generated name.
abbrev pub created_org : UserInfo → Orgnazition → Str → Str → Orgnazition
created_org usr body time name = record body {
  id = usr.username ++ (codes "-org-" ++ name);
  create_by = usr.username;
  create_time = time;
  member_list = body.member_list ++ creator_member usr time ∷ [];
  role_binding = true;
}

-- The profile of the user who has created it.
abbrev pub creating_user : UserInfo → Orgnazition → UserInfo
creating_user usr o = with_org_used int64_inc (record usr {
  org_list = usr.org_list ++ record { org_id = o.id; org_name = o.name; org_alias = [] } ∷ [];
})

module _ {W : Type 0} (B : Backend W) (stored : W → Str → Option Value) (L : Laws B stored) where
  generated-length :
      (w : W) (n : ℕ) → Ensures (IsSame stored w) (generated_org_name B n) (λ s. length s ≡ n)
  unfolding generated_org_name
  generated-length w zero = Ensures-pure [] refl
  generated-length w (suc n) =
      Ensures-bind Any _ _ (quiet_call stored w (B.rand_intn 36) (L.rand_intn_keeps 36)) (λ i _.
        Ensures-bind (λ s. length s ≡ n) _ _ (generated-length w n)
          (λ rest q. Ensures-pure _ (omega (arith, q))))

  -- If `CreateOrg` returns, the user had used fewer than 9999999 organizations; the organization that
  -- it returns is the request's with the user as last member, admin and joined, an id made of the
  -- user's name and eight generated characters, and the user as its creator; it is stored under its
  -- id, the user's profile is stored with the organization in its list and one more organization used;
  -- and nothing else of the store has changed.
  pub create_org-Gives :
      (usr : UserInfo) (body : Orgnazition) (w : W) {o : Orgnazition} {w' : W}
      → Gives (create_org B usr body) w o w'
      → (leb_ℤ (pos 9999999) usr.status.quota.org_used ≡ false)
        × ((time : Str) × (name : Str) × (length name ≡ 8) × (o ≡ created_org usr body time name))
        × (IsStoredOrg stored w' o
            × IsStoredUser stored w' (creating_user usr o)
            × ChangesOnly stored w o.id usr.username w')
  unfolding create_org
  create_org-Gives usr body w {o} {w'} e = after_guard _ _ _ e (λ below e.
      after_keeping B stored L (call B.now) _ (quiet_call stored w B.now L.now_keeps) e
        (λ time w1 same1 e.
          after_ensuring B stored L _ (generated_org_name B 8) _ (generated-length w1 8) e
            (λ name w2 size same2 e.
              after_keeping B stored L _ _
                (Keeps-create_project B stored L (IsSame stored w2) (IsSame-IsOfStore stored w2) usr
                  _)
                e
                (λ t w3 same3 e.
                  after_org_create B stored L (created_org usr body time name) _ e (λ w4 written e.
                    after_user_update B stored L
                      (creating_user usr (created_org usr body time name)) _ e
                      (λ w5 user_written e.
                        let (o_is, end) = pure-Gives (created_org usr body time name) e in
                        (
                          not-true _ below,
                          (time, name, size, o_is),
                          subst
                              (λ x.
                                IsStoredOrg stored w' x
                                × IsStoredUser stored w' (creating_user usr x)
                                × ChangesOnly stored w x.id usr.username w')
                              (sym o_is)
                              (org_then_user stored (created_org usr body time name)
                                (creating_user usr (created_org usr body time name))
                                (IsWritten-IsSame stored (λ k. same3 k ∙ (same2 k ∙ same1 k))
                                  written)
                                (IsSame-IsWritten stored user_written
                                  (λ k. ap (λ z. stored z k) end))),
                        )))))))
