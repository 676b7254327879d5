-- ===== src/Media/Registry/Best.antt =====
-- Whom the selection of src/media/backend_registry.cpp chooses, and when it finds nobody.
use Prim.Native.String.{◌++◌}
use mathlib.Core.List.{append-nil, append_assoc}
use eavp.Base.{
  ◌≡◌, sym, ap, ◌∙◌, refl, true, false, List, [], ◌∷◌, ◌++◌ as append, String, str_eq, arith,
  Bool-cases, inl, inr, ◌⊎◌, if◌then◌else◌,
}
use eavp.Status.{success-eq, Status, is_ok, Result-cases, Result, success, failure}
use eavp.Media.Node.{Outcome, returned, thrown}
use eavp.Media.Capability.{mismatch}
use eavp.Media.Capability.Provider.{
  ProviderCapability, ProviderPreferenceScore, Negotiation, CapabilityKind, provider_match,
  negotiate, preference_score,
}
use eavp.Media.Registry.{
  Registry, Candidate, Selection, chosen, scored, append_rejection, visit, gather, best_of, choose,
  after_gather, select, sort,
}
use eavp.Media.Registry.Order.{IsIn, IsBest, Leads, sort-Leads}

module _ {P R C F G : Type 0} (probe : P → Outcome (Result ProviderCapability))
    (k : CapabilityKind R C F G) (r : R) where
  -- A provider offers a candidate: its capability as it is probed matches and has that score.
  pub record Offers (p : P) (c : Candidate P) : Type 0 where
    pub itself : c.provider ≡ p
    pub probed : probe p ≡ returned (success c.capability)
    pub matches : is_ok (provider_match k c.capability r) ≡ true
    pub scores : preference_score k c.capability r ≡ success c.score

  -- A provider that cannot be probed, without an exception, or that does not match.
  pub data Rejects (p : P) : Type 0 where
    unprobed : (s : Status) → probe p ≡ returned (failure s) → Rejects p
    mismatched :
        (c : ProviderCapability)
        → probe p ≡ returned (success c)
        → is_ok (provider_match k c r) ≡ false
        → Rejects p

  -- The providers of a registry in order, each of which rejects, or offers the next candidate.
  pub data Polled : List (String × P) → List (Candidate P) → Type 0 where
    none_left : Polled [] []
    offering :
        {m : List (String × P)} {os : List (Candidate P)} (id : String) (p : P) (c : Candidate P)
        → Offers p c
        → Polled m os
        → Polled ((id, p) ∷ m) (c ∷ os)
    rejecting :
        {m : List (String × P)} {os : List (Candidate P)} (id : String) (p : P)
        → Rejects p
        → Polled m os
        → Polled ((id, p) ∷ m) os

  -- What a visit that does not end the loop does: a candidate more, or a rejection.
  Visited : P → List (Candidate P) → List (Candidate P) → Type 0
  Visited p cs ds =
      ((c : Candidate P) × Offers p c × (ds ≡ append cs (c ∷ []))) ⊎ Rejects p × (ds ≡ cs)

  pair-eq :
      {A B : Type 0} {a c : A} {b d : B}
      → ◌≡◌ {A = Result (A × B)} (success (a, b)) (success (c, d))
      → a ≡ c
  pair-eq h = cc

  scored-Visited :
      (p : P) (c : ProviderCapability) (cs ds : List (Candidate P)) (text t : String)
      (s : Result ProviderPreferenceScore)
      → probe p ≡ returned (success c)
      → is_ok (provider_match k c r) ≡ true
      → preference_score k c r ≡ s
      → scored probe k r p c cs text s ≡ success (ds, t)
      → Visited p cs ds
  unfolding scored Visited
  scored-Visited p c cs ds text t (failure s) e m q h = absurd (ground (arith, h))
  scored-Visited p c cs ds text t (success s) e m q h = inl (
    record { provider = p; capability = c; score = s },
    record { itself = refl; probed = e; matches = m; scores = q },
    sym (pair-eq h),
  )

  visit-Visited :
      (id : String) (p : P) (o : Outcome (Result ProviderCapability)) (cs ds : List (Candidate P))
      (text t : String)
      → probe p ≡ o
      → visit probe k r id p o cs text ≡ success (ds, t)
      → Visited p cs ds
  unfolding visit Visited
  visit-Visited id p (thrown x) cs ds text t e h = absurd (ground (arith, h))
  visit-Visited id p (returned (failure s)) cs ds text t e h = inr (unprobed s e, sym (pair-eq h))
  visit-Visited id p (returned (success c)) cs ds text t e h =
      elim (Bool-cases (is_ok (provider_match k c r))) [
        | inr n ↦ inr (mismatched c e n, sym (pair-eq (rw n at h)))
        | inl y ↦ scored-Visited p c cs ds text t (preference_score k c r) e y refl (rw y at h)
      ]

  visit-Rejects :
      (id : String) (p : P) (text : String)
      → Rejects p
      → (t : String) × (visit probe k r id p (probe p) [] text ≡ success ([], t))
  unfolding visit
  visit-Rejects id p text (unprobed s e) = (append_rejection text id s, rw (e, visit) refl)
  visit-Rejects id p text (mismatched c e n) =
      (append_rejection text id (provider_match k c r), rw (e, visit) (rw n refl))

  gather-Polled :
      (m : List (String × P)) (cs ds : List (Candidate P)) (text t : String)
      → gather probe k r m cs text ≡ success (ds, t)
      → (os : List (Candidate P)) × Polled m os × (ds ≡ append cs os)
  unfolding gather Visited
  gather-Polled [] cs ds text t h = ([], none_left, sym (pair-eq h) ∙ sym (append-nil cs))
  gather-Polled ((id, p) ∷ m) cs ds text t h =
      elim (Result-cases (visit probe k r id p (probe p) cs text)) [
        | inl (s, e) ↦ absurd (ground (arith, e, h))
        | inr ((es, t'), e) ↦
            let (os, polled, same) = gather-Polled m es ds t' t (rw (e, gather) at h) in
            elim (visit-Visited id p (probe p) cs es text t' refl e)
              as (λ _. (os : List (Candidate P)) × Polled ((id, p) ∷ m) os × (ds ≡ append cs os)) [
                | inl (c, offers, f) ↦ (
                  c ∷ os,
                  offering id p c offers polled,
                  same
                      ∙ ap (λ (x : List (Candidate P)). append x os) f
                      ∙ append_assoc cs (c ∷ []) os,
                )
                | inr (rejects, f) ↦ (
                  os,
                  rejecting id p rejects polled,
                  same ∙ ap (λ (x : List (Candidate P)). append x os) f,
                )
              ]
      ]

  -- What the best candidate comes to.
  Wins : Registry P → Selection P G → Type 0
  Wins reg sel =
      (os : List (Candidate P)) × (c : Candidate P) × Polled reg.providers os
      × IsIn c os
      × IsBest c os
      × (c.provider ≡ sel.provider)
      × (negotiate k c.capability r ≡ success sel.negotiation)

  chosen-success :
      (p : P) (n : Result (Negotiation G)) (sel : Selection P G)
      → chosen p n ≡ success sel
      → (p ≡ sel.provider) × (n ≡ success sel.negotiation)
  unfolding chosen
  chosen-success p (failure s) sel h = absurd (ground (arith, h))
  chosen-success p (success n) sel h =
      let e = success-eq h in
      (
        ap (λ (x : Selection P G). x.provider) e,
        ap (λ (x : Selection P G). success x.negotiation) e,
      )

  best_of-Wins :
      (reg : Registry P) (os s : List (Candidate P)) (sel : Selection P G)
      → Polled reg.providers os
      → Leads os s
      → best_of probe k r s ≡ success sel
      → Wins reg sel
  unfolding best_of Wins
  best_of-Wins reg os [] sel p l h = absurd l
  best_of-Wins reg os (c ∷ s) sel p l h =
      let w = chosen-success c.provider (negotiate k c.capability r) sel h in
      (os, c, p, l.0, l.1, w.0, w.1)

  choose-Wins :
      (reg : Registry P) (os : List (Candidate P)) (text : String) (sel : Selection P G)
      → Polled reg.providers os
      → choose probe k r os text ≡ success sel
      → Wins reg sel
  unfolding choose
  choose-Wins reg [] text sel p h = absurd (ground (arith, h))
  choose-Wins reg (c ∷ cs) text sel p h =
      best_of-Wins reg (c ∷ cs) (sort (c ∷ cs)) sel p (sort-Leads c cs) h

  after_gather-Wins :
      (reg : Registry P) (g : Result (List (Candidate P) × String)) (sel : Selection P G)
      → gather probe k r reg.providers [] "" ≡ g
      → after_gather probe k r g ≡ success sel
      → Wins reg sel
  unfolding after_gather
  after_gather-Wins reg (failure s) sel e h = absurd (ground (arith, h))
  after_gather-Wins reg (success (cs, text)) sel e h =
      let (os, p, same) = gather-Polled reg.providers [] cs "" text e in
      choose-Wins reg os text sel p (rw same at h)

  -- With no provider required, a selection that succeeds polls every provider, each of which rejects
  -- the request or offers a candidate, and takes a candidate among those of the lowest scores: it
  -- returns the provider of this candidate and what its capability negotiates.
  pub select-IsBest :
      (reg : Registry P) (sel : Selection P G)
      → str_eq (k.required_provider_id r) "" ≡ true
      → select probe k r reg ≡ success sel
      → (os : List (Candidate P)) × (c : Candidate P) × Polled reg.providers os
        × IsIn c os
        × IsBest c os
        × (c.provider ≡ sel.provider)
        × (negotiate k c.capability r ≡ success sel.negotiation)
  unfolding select Wins
  select-IsBest reg sel e h =
      after_gather-Wins reg (gather probe k r reg.providers [] "") sel refl (rw e at h)

  -- Every provider of a list rejects.
  abbrev pub AllReject : List (String × P) → Type 0
  AllReject [] = Unit
  AllReject ((id, p) ∷ m) = Rejects p × AllReject m

  gather-AllReject :
      (m : List (String × P)) (text : String)
      → AllReject m
      → (t : String) × (gather probe k r m [] text ≡ success ([], t))
  unfolding gather
  gather-AllReject [] text a = (text, refl)
  gather-AllReject ((id, p) ∷ m) text a =
      let (t, e) = visit-Rejects id p text a.0 in
      let (u, g) = gather-AllReject m t a.1 in (u, rw (e, gather) g)

  -- With no provider required, a selection among providers that all reject the request, and among
  -- none, fails with the code of a mismatch.
  pub select_none :
      (reg : Registry P)
      → str_eq (k.required_provider_id r) "" ≡ true
      → AllReject reg.providers
      → (message : String) × (select probe k r reg ≡ failure (mismatch message))
  unfolding select after_gather choose
  select_none reg e a =
      let (t, g) = gather-AllReject reg.providers "" a in
      (
        k.no_provider ++ (if str_eq t "" then "no backend providers are registered" else t),
        rw (e, g) refl,
      )
