-- ===== src/CallGraph/Mentions.antt =====
-- graph.go: the hosts, the keys and the backends of the code, in terms of what is declared.
use ruptura.Base.{
  ◌≡◌, ◌≢◌, ◌↔◌, refl, sym, ap, ◌∙◌, subst, String, true, false, not, ◌&&◌, ◌||◌, some, inl, inr,
  List, [], ◌∷◌, flat_map, Has, Has-append, contains, trim_suffix, split, Bool-cases, List-cases,
  if◌then◌else◌, ◌==◌, ==_iff, string_eq, Dict, arith,
}
use ruptura.CallGraph.{
  HostText, Workload, Service, group_hosts, found_hosts, hosts, parts_key, service_key, slashed,
  text_at, agrees, selects, is_backend,
}
use ruptura.CallGraph.Declares.{IsGroup, Mentions, Names, IsSelected}

pub Has-flat_map :
    {A B : Type 0} (f : A → List B) (b : B) (xs : List A)
    → Has b (flat_map f xs) ↔ ((a : A) × Has a xs × Has b (f a))
Has-flat_map f b [] = (λ h. absurd h, λ h. absurd h.1)
Has-flat_map f b (x ∷ xs) =
    let split = Has-append b (f x) (flat_map f xs) in
    let rest = Has-flat_map f b xs in
    (
      λ h. elim (split.0 h) [
        | inl here ↦ (x, inl refl, here)
        | inr there ↦ let (a, among, found) = rest.0 there in (a, inr among, found)
      ],
      λ h.
          let (a, among, found) = h in
          split.1 (elim among [
            | inl e ↦ inl (subst (λ y. Has b (f y)) (sym e) found)
            | inr later ↦ inr (rest.1 (a, later, found))
          ]),
    )

module _ (texts : HostText) where
  group_hosts-IsGroup :
      (groups : List String) (host : String)
      → Has host (group_hosts texts groups) ↔ IsGroup texts groups host
  unfolding group_hosts
  group_hosts-IsGroup [] host = (λ h. absurd h, λ h. absurd h.1)
  group_hosts-IsGroup (g ∷ groups) host =
      let rest = group_hosts-IsGroup groups host in
      elim (Bool-cases (g == "")) [
        | inl empty ↦ rw empty (
          λ h. let (x, there, filled, e) = rest.0 h in (x, inr there, filled, e),
          λ h.
              let (x, among, filled, e) = h in
              elim among [
                | inl is_it ↦ absurd (filled (sym is_it ∙ (==_iff g "").0 empty))
                | inr there ↦ rest.1 (x, there, filled, e)
              ],
        )
        | inr full ↦
            let some_text : g ≢ "" =
              λ e. absurd (let bad : true ≡ false = sym ((==_iff g "").1 e) ∙ full in cc) in
            rw full (
              λ h. elim h [
                | inl e ↦ (g, inl refl, some_text, sym e)
                | inr later ↦ let (x, there, filled, e) = rest.0 later in (x, inr there, filled, e)
              ],
              λ h.
                  let (x, among, filled, e) = h in
                  elim among [
                    | inl is_it ↦ inl (ap (λ y. texts.to_lower (trim_suffix "." y)) is_it ∙ sym e)
                    | inr there ↦ inr (rest.1 (x, there, filled, e))
                  ],
            )
      ]

  found_hosts-IsGroup :
      (matches : List (List String)) (host : String)
      → Has host (found_hosts texts matches)
        ↔ ((groups : List String) × Has groups matches × IsGroup texts groups host)
  unfolding found_hosts
  found_hosts-IsGroup [] host = (λ h. absurd h, λ h. absurd h.1)
  found_hosts-IsGroup (g ∷ more) host =
      let split = Has-append host (group_hosts texts g) (found_hosts texts more) in
      let rest = found_hosts-IsGroup more host in
      (
        λ h. elim (split.0 h) [
          | inl here ↦ (g, inl refl, (group_hosts-IsGroup g host).0 here)
          | inr there ↦ let (a, among, found) = rest.0 there in (a, inr among, found)
        ],
        λ h.
            let (a, among, found) = h in
            split.1 (elim among [
              | inl e ↦
                  inl (
                    (group_hosts-IsGroup g host).1
                      (subst (λ y. IsGroup texts y host) (sym e) found))
              | inr later ↦ inr (rest.1 (a, later, found))
            ]),
      )

  fallback_iff :
      (value host : String)
      → Has host (
          if contains value ".svc" && not (contains value " " || contains value "/")
          then texts.to_lower value ∷ []
          else [])
        ↔ ((contains value ".svc" ≡ true)
            × (contains value " " ≡ false)
            × (contains value "/" ≡ false)
            × (host ≡ texts.to_lower value))
  fallback_iff value host = ground arith

  -- The hosts of a value are those that it mentions.
  pub hosts-Mentions :
      (value host : String) → Has host (hosts texts value) ↔ Mentions texts value host
  unfolding hosts
  hosts-Mentions value host =
      let matches = texts.submatches value in
      let found = found_hosts-IsGroup matches in
      elim (List-cases (found_hosts texts matches)) [
        | inl empty ↦
            rw (hosts, empty)
              (
                λ h.
                    let (svc, no_blank, no_slash, lower) = (fallback_iff value host).0 h in
                    inr (
                      λ groups h' among there. elim (Bool-cases (h' == "")) [
                        | inl e ↦ (==_iff h' "").0 e
                        | inr full ↦
                            let host' = texts.to_lower (trim_suffix "." h') in
                            let some_text : h' ≢ "" = λ e.
                              absurd
                                (let bad : true ≡ false = sym ((==_iff h' "").1 e) ∙ full in cc) in
                            absurd (
                              subst (Has host') empty
                                ((found host').1 (groups, among, (h', there, some_text, refl))))
                      ],
                      svc,
                      no_blank,
                      no_slash,
                      lower,
                    ),
                λ h. elim h [
                  | inl m ↦ absurd (subst (Has host) empty ((found host).1 m))
                  | inr (nothing, svc, no_blank, no_slash, lower) ↦
                      (fallback_iff value host).1 (svc, no_blank, no_slash, lower)
                ],
              )
        | inr (first, others, e) ↦
            rw (hosts, e)
              (
                λ h. inl ((found host).0 (subst (Has host) (sym e) h)),
                λ h. elim h [
                  | inl m ↦ subst (Has host) e ((found host).1 m)
                  | inr (nothing, svc, no_blank, no_slash, lower) ↦
                      let (groups, among, (x, there, filled, y)) =
                        (found first).0 (subst (Has first) (sym e) (inl refl)) in
                      absurd (filled (nothing groups x among there))
                ],
              )
      ]

parts_iff :
    (parts : List String) (home key : String)
    → (parts_key home parts ≡ some key) ↔ (
        (namespace name : String) × Names home parts namespace name
        × (key ≡ slashed namespace name))
parts_iff [] home key = (λ h. absurd (cc), λ h. absurd h.2)
parts_iff (n ∷ []) home key =
    (λ h. (home, n, (refl, refl), cc), λ h. let (ns, name, (e, at), is_key) = h in cc)
parts_iff (n ∷ m ∷ []) home key =
    (λ h. (m, n, (refl, refl), cc), λ h. let (ns, name, (e, at), is_key) = h in cc)
parts_iff (n ∷ m ∷ third ∷ more) home key = elim (Bool-cases (third == "svc")) [
  | inl svc ↦ rw svc (
    λ h. (m, n, ((==_iff third "svc").0 svc, refl, refl), cc),
    λ h. let (ns, name, (is_svc, e, at), is_key) = h in cc,
  )
  | inr other ↦ rw other (
    λ h. absurd (cc),
    λ h.
        let (ns, name, (is_svc, e, at), is_key) = h in
        absurd (let bad : true ≡ false = sym ((==_iff third "svc").1 is_svc) ∙ other in cc),
  )
]

pub service_key-Names :
    (host home key : String)
    → (service_key host home ≡ some key) ↔ (
        (namespace name : String) × Names home (split "." host) namespace name
        × (key ≡ slashed namespace name))
unfolding service_key
service_key-Names host home key = parts_iff (split "." host) home key

agrees_iff :
    (selector labels : Dict String String)
    → (agrees selector labels ≡ true)
      ↔ ((k v : String) → Has (k, v) selector → text_at k labels ≡ v)
agrees_iff [] labels = (λ h k v none_there. absurd none_there, λ h. refl)
agrees_iff ((k, v) ∷ more) labels =
    let rest = agrees_iff more labels in
    elim (Bool-cases (text_at k labels == v)) [
      | inl same ↦
          let here = (==_iff (text_at k labels) v).0 same in
          rw same (
            λ h k' v' among. elim among [
              | inl e ↦ subst (λ p. text_at p.0 labels ≡ p.1) e here
              | inr there ↦ rest.0 h k' v' there
            ],
            λ h. rest.1 (λ k' v' there. h k' v' (inr there)),
          )
      | inr other ↦ rw other (
        λ h. absurd (cc),
        λ h. absurd (
            let bad : true ≡ false =
              sym ((==_iff (text_at k labels) v).1 (h k v (inl refl))) ∙ other in
            cc),
      )
    ]

selects_iff :
    (selector labels : Dict String String)
    → (selects selector labels ≡ true)
      ↔ ((selector ≢ []) × ((k v : String) → Has (k, v) selector → text_at k labels ≡ v))
unfolding selects
selects_iff [] labels = (λ h. absurd (cc), λ h. absurd (h.0 refl))
selects_iff (kv ∷ more) labels = (
  λ h. (λ e. absurd (cc), (agrees_iff (kv ∷ more) labels).0 h),
  λ h. (agrees_iff (kv ∷ more) labels).1 h.1,
)

pub is_backend-IsSelected :
    (svc : Service) (w : Workload) → (is_backend svc w ≡ true) ↔ IsSelected svc w
unfolding is_backend
is_backend-IsSelected svc w =
    let chosen = selects_iff svc.selector w.labels in
    let near = ==_iff w.namespace svc.namespace in
    elim (Bool-cases (w.namespace == svc.namespace)) [
      | inl same ↦ rw same (
        λ h. let (filled, all) = chosen.0 h in (near.0 same, filled, all),
        λ h. chosen.1 (h.1, h.2),
      )
      | inr other ↦
          rw other (
            λ h. absurd (cc),
            λ h. absurd (let bad : true ≡ false = sym (near.1 h.0) ∙ other in cc),
          )
    ]
