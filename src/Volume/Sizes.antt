-- ===== src/Volume/Sizes.antt =====
-- volume.go: the sizes that CreateVolume accepts, and what it does with another one.
use datafoundry_proxy.Base.{
  ℕ, ◌*◌, ◌/◌, ◌%◌, ◌≤◌, ◌≡◌, refl, ap, true, false, ◌↔◌, Option, Str, codes, Bool-cases, inl, inr,
  arith,
}
use datafoundry_proxy.Base.Int.{ℤ, pos, negsuc}
use datafoundry_proxy.Effect.{ok, returns, ◌>>=◌}
use datafoundry_proxy.Json.{Json}
use datafoundry_proxy.Backend.{Backend}
use datafoundry_proxy.Auth.{authed_identities}
use datafoundry_proxy.Handlers.{resp_error}
use datafoundry_proxy.Messages.Params.Must.{
  given, Map, Words, must_int_param_in_map, must_string_param, string_param_type_url_word,
}
use datafoundry_proxy.Openshift.{OpenshiftClient, Transport}
use datafoundry_proxy.Volume.Handlers.{
  Storage, VolumeRequest, proxy, size_is_invalid, invalid_volumn_size, create_sized, create_volume,
}

pos-injective : (a b : ℕ) → pos a ≡ pos b → a ≡ b
pos-injective a b e = cc

tests_of : (n : ℕ) → size_is_invalid (pos n) ≡ false → (10 ≤ n) × (n ≤ 200) × (n % 10 ≡ 0)
unfolding size_is_invalid
tests_of n h = (ground arith, ground arith, ground arith)

tens : (n : ℕ) → 10 ≤ n → n ≤ 200 → n % 10 ≡ 0 → (m : ℕ) × (1 ≤ m) × (m ≤ 20) × (n ≡ 10 * m)
tens n lo hi rest = (n / 10, omega arith, omega arith, omega arith)

valid_ten : (m : ℕ) → 1 ≤ m → m ≤ 20 → size_is_invalid (pos (10 * m)) ≡ false
unfolding size_is_invalid
valid_ten m lo hi = ground arith

-- A size is accepted exactly if it is 10, 20, ... or 200.
pub size_is_invalid_iff :
    (size : ℤ)
    → (size_is_invalid size ≡ false) ↔ ((m : ℕ) × (1 ≤ m) × (m ≤ 20) × (size ≡ pos (10 * m)))
unfolding size_is_invalid
size_is_invalid_iff (negsuc n) = (λ h. cc, λ (m, lo, hi, e). cc)
size_is_invalid_iff (pos n) = (
  λ h.
      let (lo, hi, rest) = tests_of n h in
      let (m, one, most, e) = tens n lo hi rest in (m, one, most, ap pos e),
  λ (m, lo, hi, e). rw (pos-injective n (10 * m) e) (valid_ten m lo hi),
)

module _ {W : Type 0} (B : Backend W) (T : Transport W) (S : Storage W) (V : Words)
    (int64_of : Json → Option ℤ) (the_oc : OpenshiftClient W) where
  -- CreateVolume with a size other than 10, 20, ..., 200 in an otherwise readable request of an
  -- identified caller answers 400 and the error on sizes, whatever the name in the request, and calls
  -- neither Heketi nor OpenShift: after the caller has been identified, nothing changes.
  pub create_volume-size :
      (r : VolumeRequest) (username namespace : Str) (m : Map) (size : ℤ) (w w' : W)
      → authed_identities B r.auth w ≡ (returns username, w')
      → must_string_param V
          (codes "namespace")
          (r.params (codes "namespace"))
          string_param_type_url_word
        ≡ given namespace
      → r.body ≡ ok m
      → must_int_param_in_map int64_of m (codes "size") ≡ given size
      → ¬ ((t : ℕ) × (1 ≤ t) × (t ≤ 20) × (size ≡ pos (10 * t)))
      → create_volume B T S V int64_of the_oc r w
        ≡ (returns (proxy (resp_error B invalid_volumn_size 400)), w')
  unfolding create_volume create_sized ◌>>=◌
  create_volume-size r username namespace m size w w' known in_path body in_body other =
      rw (known, in_path, body, in_body, invalid) refl
    where
      invalid : size_is_invalid size ≡ true
      invalid = elim (Bool-cases (size_is_invalid size)) [
        | inl e ↦ e
        | inr e ↦ absurd (other ((size_is_invalid_iff size).0 e))
      ]
