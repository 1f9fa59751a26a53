-- ===== src/Policy/Admin.antt =====
-- crates/mim-policy/src/store.rs: what the administration of a store keeps.
use ainext_gen_c.Base.{
  ◌≡◌, ◌≢◌, refl, sym, ◌∙◌, inl, inr, Option, none, some, Bool, false, Text, text_eq, text_eq_iff,
  text_eq_refl, List, [], ◌∷◌, ◌++◌, is_empty, any, All, ok, >>=-eq-ok, ok_injective, fail_if,
  map_err, Bool-cases, arith, if◌then◌else◌,
}
use ainext_gen_c.Label.Domain.{SecurityDomain, validate_id}
use ainext_gen_c.Policy.Error.{PolicyError, from_label_error}
use ainext_gen_c.Policy.Store.{
  CrossDomainPolicy, PolicyStore, Domains, get_domain, put_domain, domain, insert_domain,
  insert_cross_domain_policy, is_none,
}

-- The domain that was put is found, and every other key finds what it found before.
get_domain-put_domain :
    (k : Text) (d : SecurityDomain) (ds : Domains) → get_domain k (put_domain k d ds) ≡ some d
unfolding get_domain put_domain
get_domain-put_domain k d [] = ground (arith, text_eq_refl k)
get_domain-put_domain k d ((j, e) ∷ rest) = ground (arith, get_domain-put_domain k d rest)

get_domain-put_domain_other :
    (i k : Text) (d : SecurityDomain) (ds : Domains)
    → text_eq k i ≡ false
    → get_domain i (put_domain k d ds) ≡ get_domain i ds
unfolding get_domain put_domain
get_domain-put_domain_other i k d [] h = ground arith
get_domain-put_domain_other i k d ((j, e) ∷ rest) h = elim (Bool-cases (text_eq j k)) [
  | inl same ↦ rw ((text_eq_iff j k).0 same, text_eq_refl k, h) refl
  | inr differs ↦ ground (arith, get_domain-put_domain_other i k d rest h)
]

-- A domain is stored under its own id.
abbrev pub IsKeyed : Text × SecurityDomain → Type 0
IsKeyed (k, d) = d.id ≡ k

get_domain-IsKeyed :
    (k : Text) (d : SecurityDomain) (ds : Domains)
    → All IsKeyed ds
    → get_domain k ds ≡ some d
    → d.id ≡ k
unfolding get_domain
get_domain-IsKeyed k d [] h found = ground arith
get_domain-IsKeyed k d ((j, e) ∷ rest) h found =
    ground (arith, h.0, (text_eq_iff j k).0, get_domain-IsKeyed k d rest h.1)

put_domain-IsKeyed :
    (d : SecurityDomain) (ds : Domains) → All IsKeyed ds → All IsKeyed (put_domain d.id d ds)
unfolding put_domain
put_domain-IsKeyed d [] h = (refl, tt)
put_domain-IsKeyed d ((j, e) ∷ rest) h = elim (Bool-cases (text_eq j d.id)) [
  | inl same ↦ rw same (sym ((text_eq_iff j d.id).0 same), h.1)
  | inr differs ↦ rw differs (h.0, put_domain-IsKeyed d rest h.1)
]

-- Both ends of a rule are registered.
pub record IsConnected (ds : Domains) (p : CrossDomainPolicy) : Type 0 where
  pub source : SecurityDomain
  pub source_found : get_domain p.source_domain ds ≡ some source
  pub target : SecurityDomain
  pub target_found : get_domain p.target_domain ds ≡ some target

-- No two rules have the same id.
abbrev pub AreDistinct : List CrossDomainPolicy → Type 0
AreDistinct [] = Unit
AreDistinct (p ∷ rest) = All (λ (q : CrossDomainPolicy). q.id ≢ p.id) rest × AreDistinct rest

-- `!policy.id.is_empty()`
abbrev pub IsNamed : CrossDomainPolicy → Type 0
IsNamed p = is_empty p.id ≡ false

-- What every operation on the store keeps.
pub record IsValidStore (s : PolicyStore) : Type 0 where
  pub keyed : All IsKeyed s.domains
  pub connected : All (IsConnected s.domains) s.cross_domain_policies
  pub distinct : AreDistinct s.cross_domain_policies
  pub named : All IsNamed s.cross_domain_policies

-- A known id stays known when a domain is put.
put_domain-known :
    (i : Text) (d : SecurityDomain) (ds : Domains) (e : SecurityDomain)
    → get_domain i ds ≡ some e
    → (f : SecurityDomain) × (get_domain i (put_domain d.id d ds) ≡ some f)
put_domain-known i d ds e found = elim (Bool-cases (text_eq d.id i)) [
  | inl same ↦ (d, rw (← (text_eq_iff d.id i).0 same) (get_domain-put_domain d.id d ds))
  | inr differs ↦ (e, get_domain-put_domain_other i d.id d ds differs ∙ found)
]

put_domain-IsConnected :
    (d : SecurityDomain) (ds : Domains) (p : CrossDomainPolicy)
    → IsConnected ds p
    → IsConnected (put_domain d.id d ds) p
put_domain-IsConnected d ds p c =
    let (source, source_found) = put_domain-known p.source_domain d ds c.source c.source_found in
    let (target, target_found) = put_domain-known p.target_domain d ds c.target c.target_found in
    record {
      source = source;
      source_found = source_found;
      target = target;
      target_found = target_found;
    }

pub All-map :
    {P Q : CrossDomainPolicy → Type 0} (ps : List CrossDomainPolicy)
    → ((p : CrossDomainPolicy) → P p → Q p)
    → All P ps
    → All Q ps
All-map [] f h = tt
All-map (p ∷ ps) f h = (f p h.0, All-map ps f h.1)

All-snoc :
    (P : CrossDomainPolicy → Type 0) (ps : List CrossDomainPolicy) (p : CrossDomainPolicy)
    → All P ps
    → P p
    → All P (ps ++ p ∷ [])
All-snoc P [] p h x = (x, tt)
All-snoc P (q ∷ ps) p h x = (h.0, All-snoc P ps p h.1 x)

AreDistinct-snoc :
    (ps : List CrossDomainPolicy) (p : CrossDomainPolicy)
    → AreDistinct ps
    → any (λ q. text_eq q.id p.id) ps ≡ false
    → AreDistinct (ps ++ p ∷ [])
unfolding any
AreDistinct-snoc [] p h fresh = (tt, tt)
AreDistinct-snoc (q ∷ ps) p h fresh = (
  All-snoc _ ps p h.0 (λ same. ground (arith, (text_eq_iff q.id p.id).1 (sym same))),
  AreDistinct-snoc ps p h.1 (ground arith),
)

domain-put_domain :
    (i k : Text) (d : SecurityDomain) (ds : Domains)
    → get_domain i (put_domain k d ds) ≡ (if text_eq k i then some d else get_domain i ds)
domain-put_domain i k d ds = elim (Bool-cases (text_eq k i)) [
  | inl same ↦ rw same (rw (← (text_eq_iff k i).0 same) (get_domain-put_domain k d ds))
  | inr differs ↦ rw differs (get_domain-put_domain_other i k d ds differs)
]

-- Registering a domain keeps a valid store valid; the domain is then the one of its id, and every
-- other id has the domain that it had.
pub insert_domain-IsValidStore :
    (s s' : PolicyStore) (d : SecurityDomain) (id : Text)
    → IsValidStore s
    → insert_domain s d ≡ ok s'
    → IsValidStore s' × (domain s' id ≡ (if text_eq d.id id then some d else domain s id))
unfolding insert_domain domain
insert_domain-IsValidStore s s' d id v h =
    let (done, checked, built) = >>=-eq-ok (map_err from_label_error (validate_id d.id)) _ h in
    rw (← ok_injective _ s' _ refl built) (
      record {
        keyed = put_domain-IsKeyed d s.domains v.keyed;
        connected =
            All-map s.cross_domain_policies (put_domain-IsConnected d s.domains) v.connected;
        distinct = v.distinct;
        named = v.named;
      },
      domain-put_domain id d.id d s.domains,
    )

-- a guard that was passed
passed : (test : Bool) (e : PolicyError) → fail_if test e ≡ ok tt → test ≡ false
passed test e h = ground arith

not_none : (o : Option SecurityDomain) → is_none o ≡ false → (d : SecurityDomain) × (o ≡ some d)
not_none none h = absurd (ground arith)
not_none (some d) h = (d, refl)

-- Adding a rule keeps the store valid; the rule is the last one, and its ends are registered.
pub insert_cross_domain_policy-IsValidStore :
    (s s' : PolicyStore) (p : CrossDomainPolicy)
    → IsValidStore s
    → insert_cross_domain_policy s p ≡ ok s'
    → IsValidStore s'
      × (s'.cross_domain_policies ≡ s.cross_domain_policies ++ p ∷ [])
      × IsConnected s'.domains p
unfolding insert_cross_domain_policy domain
insert_cross_domain_policy-IsValidStore s s' p v h =
    let (t1, named, h1) = >>=-eq-ok (fail_if (is_empty p.id) _) _ h in
    let (t2, source, h2) = >>=-eq-ok (fail_if (is_none (domain s p.source_domain)) _) _ h1 in
    let (t3, target, h3) = >>=-eq-ok (fail_if (is_none (domain s p.target_domain)) _) _ h2 in
    let (t4, fresh, h4) =
      >>=-eq-ok (fail_if (any (λ q. text_eq q.id p.id) s.cross_domain_policies) _) _ h3 in
    let (source', source_found) =
      not_none (get_domain p.source_domain s.domains) (passed _ _ source) in
    let (target', target_found) =
      not_none (get_domain p.target_domain s.domains) (passed _ _ target) in
    let c : IsConnected s.domains p = record {
      source = source';
      source_found = source_found;
      target = target';
      target_found = target_found;
    } in
    rw (← ok_injective _ s' _ refl h4) (
      record {
        keyed = v.keyed;
        connected = All-snoc _ s.cross_domain_policies p v.connected c;
        distinct = AreDistinct-snoc s.cross_domain_policies p v.distinct (passed _ _ fresh);
        named = All-snoc _ s.cross_domain_policies p v.named (passed _ _ named);
      },
      refl,
      c,
    )
