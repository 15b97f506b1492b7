-- ===== src/Web/Preview/Networks.antt =====
-- The string of networks that `handleContainerDetail` of pkg/web/server.go makes and `DiscoverEndpoints`
-- of pkg/serviceprobe takes apart.
use ctop.Prelude.{
  ℕ, ◌≡◌, refl, sym, ap, ◌∙◌, append-nil, true, false, List, [], ◌∷◌, ◌++◌, arith, append_assoc,
  ◌==◌, ◌⊎◌, inl, inr, map, All,
}
use ctop.Prelude.Texts.{Text, codes, trim_space}
use ctop.Prelude.Split.{split_run, join_with, itoa}
use ctop.Service.Discover.{NetPackage, is_bridge, split_fields, ip_field}
use ctop.Service.Discover.Targets.{networks_of, IsAddress}
use ctop.Web.Snapshot.{ContainerSnapshot, NetworkInfo}
use ctop.Web.Preview.{raw_net_str, net_part, net_parts}

-- A text without the byte.
abbrev pub IsWithout : ℕ → Text → Type 0
IsWithout c s = All (λ x. (x == c) ≡ false) s

split_run-IsWithout :
    (c n : ℕ) (s rest first : Text) (more : List Text)
    → IsWithout c s
    → split_run c n 0 rest ≡ first ∷ more
    → split_run c n 0 (s ++ rest) ≡ (s ++ first) ∷ more
unfolding split_run
split_run-IsWithout c n [] rest first more h e = e
split_run-IsWithout c n (x ∷ s) rest first more (p, h) e =
    rw (p, split_run-IsWithout c n s rest first more h e) refl

-- A separator parts a text that has no byte of it from the rest.
split_run-two :
    (s rest : Text)
    → IsWithout b';' s
    → split_run b';' 1 0 (s ++ b';' ∷ b';' ∷ rest) ≡ s ∷ split_run b';' 1 0 rest
split_run-two s rest h =
    split_run-IsWithout b';' 1 s (b';' ∷ b';' ∷ rest) [] (split_run b';' 1 0 rest) h
      (unfold split_run in refl)
    ∙ ap (λ (t : Text). t ∷ split_run b';' 1 0 rest) (append-nil s)

split_run-three :
    (s rest : Text)
    → IsWithout b':' s
    → split_run b':' 2 0 (s ++ b':' ∷ b':' ∷ b':' ∷ rest) ≡ s ∷ split_run b':' 2 0 rest
split_run-three s rest h =
    split_run-IsWithout b':' 2 s (b':' ∷ b':' ∷ b':' ∷ rest) [] (split_run b':' 2 0 rest) h
      (unfold split_run in refl)
    ∙ ap (λ (t : Text). t ∷ split_run b':' 2 0 rest) (append-nil s)

split_run-none : (s : Text) → IsWithout b';' s → split_run b';' 1 0 s ≡ s ∷ []
split_run-none s h =
    ap (split_run b';' 1 0) (sym (append-nil s))
    ∙ split_run-IsWithout b';' 1 s [] [] [] h (unfold split_run in refl)
    ∙ ap (λ (t : Text). t ∷ []) (append-nil s)

-- A network whose name and address have no colon, and that has no semicolon.
abbrev pub IsPlain : NetworkInfo → Type 0
IsPlain n = IsWithout b':' n.name × IsWithout b':' n.ip_address × IsWithout b';' (net_part n)

join_with-more :
    (sep p q : Text) (ps : List Text)
    → join_with sep (p ∷ q ∷ ps) ≡ p ++ (sep ++ join_with sep (q ∷ ps))
unfolding join_with
join_with-more sep p q ps = append_assoc p sep (join_with sep (q ∷ ps))

split_run-net_parts :
    (n : NetworkInfo) (ns : List NetworkInfo)
    → All IsPlain (n ∷ ns)
    → split_run b';' 1 0 (join_with (codes ";;") (net_parts (n ∷ ns))) ≡ net_parts (n ∷ ns)
unfolding net_parts join_with
split_run-net_parts n [] ((_, _, h), _) = split_run-none (net_part n) h
split_run-net_parts n (m ∷ ns) ((_, _, h), hs) =
    ap (split_run b';' 1 0) (join_with-more (codes ";;") (net_part n) (net_part m) (net_parts ns))
    ∙ split_run-two (net_part n) (join_with (codes ";;") (net_parts (m ∷ ns))) h
    ∙ ap (λ (ps : List Text). net_part n ∷ ps) (split_run-net_parts m ns hs)

-- The first field, where it has no colon.
split_run-field :
    (p q : Text) (ps : List Text)
    → IsWithout b':' p
    → split_run b':' 2 0 (join_with (codes ":::") (p ∷ q ∷ ps))
      ≡ p ∷ split_run b':' 2 0 (join_with (codes ":::") (q ∷ ps))
split_run-field p q ps h =
    ap (split_run b':' 2 0) (join_with-more (codes ":::") p q ps)
    ∙ split_run-three p (join_with (codes ":::") (q ∷ ps)) h

split_fields-net_part :
    (n : NetworkInfo) → IsPlain n → ip_field (split_fields (net_part n)) ≡ trim_space n.ip_address
split_fields-net_part n (name, ip, _) =
    let more = n.mac ∷ itoa n.prefix_len ∷ [] in
    ap ip_field (
      split_run-field n.name n.ip_address (n.gateway ∷ more) name
      ∙ ap (λ (fs : List Text). n.name ∷ fs) (split_run-field n.ip_address n.gateway more ip))

-- The address of one of the networks, version 4, no loopback.
abbrev pub IsNetworkAddress : NetPackage → List NetworkInfo → Text → Type 0
IsNetworkAddress net [] ip = true ≡ false
IsNetworkAddress net (n ∷ ns) ip =
    ((trim_space n.ip_address ≡ ip) × (is_bridge (net.parse_ip ip) ≡ true))
    ⊎ IsNetworkAddress net ns ip

net_parts-IsAddress :
    (net : NetPackage) (ns : List NetworkInfo) (ip : Text)
    → All IsPlain ns
    → IsAddress net (map split_fields (net_parts ns)) ip
    → IsNetworkAddress net ns ip
unfolding net_parts
net_parts-IsAddress net [] ip hs a = a
net_parts-IsAddress net (n ∷ ns) ip (h, hs) (inl (e, b)) =
    inl (sym (split_fields-net_part n h) ∙ e, b)
net_parts-IsAddress net (n ∷ ns) ip (h, hs) (inr a) = inr (net_parts-IsAddress net ns ip hs a)

networks_of-split :
    (nets : Text) (parts : List Text)
    → split_run b';' 1 0 nets ≡ parts
    → (nets ≡ []) ⊎ (networks_of nets ≡ map split_fields parts)
networks_of-split [] parts e = inl refl
networks_of-split (c ∷ cs) parts e = inr (ap (map split_fields) e)

no_address :
    (net : NetPackage) (nets ip : Text)
    → nets ≡ []
    → IsAddress net (networks_of nets) ip
    → true ≡ false
no_address net [] ip e a = a
no_address net (c ∷ cs) ip e a = ground (arith, e)

-- Where the networks of a snapshot are plain, what counts as an address in the string that is made of them
-- is the address of one of them.
pub raw_net_str-IsNetworkAddress :
    (net : NetPackage) (snap : ContainerSnapshot) (ip : Text)
    → All IsPlain snap.networks
    → IsAddress net (networks_of (raw_net_str snap)) ip
    → IsNetworkAddress net snap.networks ip
unfolding raw_net_str
raw_net_str-IsNetworkAddress net snap ip hs a = from_networks snap.networks hs a
  where
    from_networks :
        (ns : List NetworkInfo)
        → All IsPlain ns
        → IsAddress net (networks_of (join_with (codes ";;") (net_parts ns))) ip
        → IsNetworkAddress net ns ip
    from_networks [] hs a = unfold net_parts join_with in a
    from_networks (n ∷ ns) hs a = elim (networks_of-split _ _ (split_run-net_parts n ns hs)) [
      | inl e ↦ absurd (ground (arith, no_address net _ ip e a))
      | inr e ↦ net_parts-IsAddress net (n ∷ ns) ip hs (rw e at a)
    ]
