-- ===== src/State/Sweep/Report.antt =====
-- What a sweep reports and revokes, against the status that the API shows for each peer.
use kintunnel.Base.{
  ℕ, ◌≡◌, refl, sym, ap, ◌∙◌, Bool, true, false, ◌&&◌, some, List, [], ◌∷◌, ◌++◌, map, keep,
  if◌then◌else◌, arith, Text, Option-cases, Bool-cases, inl, inr,
}
use kintunnel.Base.Failure.{ok, ok-injective}
use mathlib.Core.Path.{subst, ap₂}
use mathlib.Core.List.{append-nil, append_assoc}
use kintunnel.Types.{PeerRecord, PeerStatus, ApiPeerStatus, stored, expired}
use kintunnel.Platform.{Platform}
use kintunnel.Peers.{is_past, peer_api_status, is_active_status}
use kintunnel.Ip.{is_empty}
use kintunnel.State.Context.{Context}
use kintunnel.State.Sweep.{
  SweepOptions, SweepResult, Tally, Expiry, unaffected, overdue, due_soon, expiry_of, sweep_expired,
  sweep_peers, sweep_as, sweep_overdue, sweep_due_soon, last_warned_before, lookup, revoke_expired,
}

abbrev pub shows_expired : ApiPeerStatus → Bool
shows_expired expired = true
shows_expired (stored s) = false

-- The API shows the peer as expired.
abbrev pub is_expired : Platform → ℕ → PeerRecord → Bool
is_expired p now q = shows_expired (peer_api_status p now q)

abbrev is_overdue : Expiry → Bool
is_overdue (overdue text ms) = true
is_overdue _ = false

-- What the sweep takes for overdue is what the API shows as expired.
overdue-is_expired :
    (p : Platform) (opts : SweepOptions) (now : ℕ) (q : PeerRecord)
    → is_overdue (expiry_of p opts now q) ≡ is_expired p now q
unfolding expiry_of peer_api_status
overdue-is_expired p opts now q = elim (Bool-cases (is_active_status q.status)) [
  | inr idle ↦ rw (idle, expiry_of, peer_api_status) refl
  | inl active ↦ elim (Option-cases q.expires_at) [
    | inl never ↦ rw (expiry_of, peer_api_status, active, never) refl
    | inr (text, e) ↦ elim (Bool-cases (is_empty text)) [
      | inl blank ↦ rw (expiry_of, peer_api_status, active, e, blank) refl
      | inr given ↦ elim (Option-cases (p.parse_date text)) [
        | inl nan ↦ rw (expiry_of, peer_api_status, active, e, given, is_past, nan) refl
        | inr (t, date) ↦
            rw (expiry_of, peer_api_status, active, e, given, is_past, date) (ground arith)
      ]
    ]
  ]
]

-- A sweep with this option revokes the peer.
abbrev pub is_swept : Platform → SweepOptions → ℕ → PeerRecord → Bool
is_swept p opts now q = opts.auto_revoke && is_expired p now q

unfoldable pub swept_peer : Platform → SweepOptions → ℕ → PeerRecord → PeerRecord
swept_peer p opts now q =
    if is_swept p opts now q
    then record q {
      status = PeerStatus.revoked;
      revoked_at = some (p.iso now);
      updated_at = p.iso now;
    }
    else q

abbrev one_if : Bool → Text → List Text
one_if true id = id ∷ []
one_if false id = []

record Reports (gone out : List Text) (t t' : Tally) : Type 0 where
  expired : t'.result.expired ≡ t.result.expired ++ gone
  revoked : t'.result.auto_revoked ≡ t.result.auto_revoked ++ out

Reports-none :
    (t t' : Tally)
    → t'.result.expired ≡ t.result.expired
    → t'.result.auto_revoked ≡ t.result.auto_revoked
    → Reports [] [] t t'
Reports-none t t' e r = record {
  expired = e ∙ sym (append-nil t.result.expired);
  revoked = r ∙ sym (append-nil t.result.auto_revoked);
}

Reports-trans :
    {a b x y : List Text} {t u v : Tally}
    → Reports a b t u
    → Reports x y u v
    → Reports (a ++ x) (b ++ y) t v
Reports-trans {a} {b} {x} {y} {t} {u} {v} f g = record {
  expired = g.expired ∙ ap (λ l. l ++ x) f.expired ∙ append_assoc t.result.expired a x;
  revoked = g.revoked ∙ ap (λ l. l ++ y) f.revoked ∙ append_assoc t.result.auto_revoked b y;
}

Reports-same :
    {a a' b b' : List Text} {t t' : Tally} → a ≡ a' → b ≡ b' → Reports a b t t' → Reports a' b' t t'
Reports-same {a' = a'} {b} {t} {t'} e f h =
    subst (λ l. Reports a' l t t') f (subst (λ l. Reports l b t t') e h)

sweep_due_soon-Reports :
    (p : Platform) (opts : SweepOptions) (now : ℕ) (warned : List (Text × Text)) (q : PeerRecord)
    → (text : Text) (ms : ℕ) (t : Tally)
    → let r = sweep_due_soon p opts now warned q text ms t in Reports [] [] t r.1 × (r.0 ≡ q)
unfolding sweep_due_soon
sweep_due_soon-Reports p opts now warned q text ms t =
    elim (Bool-cases (last_warned_before p now (lookup q.id warned))) [
      | inl old ↦ rw old (Reports-none t _ refl refl, refl)
      | inr recent ↦ rw recent (Reports-none t _ refl refl, refl)
    ]

-- One peer of the loop.
sweep_as-Reports :
    (p : Platform) (opts : SweepOptions) (now : ℕ) (warned : List (Text × Text)) (q : PeerRecord)
    → (t : Tally) (e : Expiry)
    → let r = sweep_as p opts now warned q t e in
      Reports (one_if (is_overdue e) q.id) (one_if (opts.auto_revoke && is_overdue e) q.id) t r.1
      × (r.0 ≡ (if opts.auto_revoke && is_overdue e then revoke_expired (p.iso now) q else q))
unfolding sweep_as sweep_overdue sweep_due_soon revoke_expired
sweep_as-Reports p opts now warned q t unaffected = elim (Bool-cases opts.auto_revoke) [
  | inl auto ↦ rw auto (Reports-none t t refl refl, refl)
  | inr warn ↦ rw warn (Reports-none t t refl refl, refl)
]
sweep_as-Reports p opts now warned q t (overdue text ms) = elim (Bool-cases opts.auto_revoke) [
  | inl auto ↦ rw auto (record { expired = refl; revoked = refl }, refl)
  | inr warn ↦
      rw warn (record { expired = refl; revoked = sym (append-nil t.result.auto_revoked) }, refl)
]
sweep_as-Reports p opts now warned q t (due_soon text ms) =
    let d = sweep_due_soon-Reports p opts now warned q text ms t in
    elim (Bool-cases opts.auto_revoke) [ inl auto ↦ rw auto d | inr warn ↦ rw warn d ]

ids_if :
    (b : Bool) (q : PeerRecord) (l : List PeerRecord)
    → one_if b q.id ++ map (λ r. r.id) l ≡ map (λ r. r.id) (if b then q ∷ l else l)
ids_if true q l = refl
ids_if false q l = refl

-- The whole loop.
sweep_peers-Reports :
    (p : Platform) (opts : SweepOptions) (now : ℕ) (warned : List (Text × Text))
    → (qs : List PeerRecord) (t : Tally)
    → let r = sweep_peers p opts now warned qs t in
      Reports
        (map (λ q. q.id) (keep (is_expired p now) qs))
        (map (λ q. q.id) (keep (is_swept p opts now) qs))
        t
        r.1
      × (r.0 ≡ map (swept_peer p opts now) qs)
unfolding sweep_peers swept_peer
sweep_peers-Reports p opts now warned [] t = (Reports-none t t refl refl, refl)
sweep_peers-Reports p opts now warned (q ∷ qs) t =
    let e = expiry_of p opts now q in
    let first = sweep_as p opts now warned q t e in
    let (one, same) =
      subst
        (λ b.
          Reports (one_if b q.id) (one_if (opts.auto_revoke && b) q.id) t first.1
          × (first.0 ≡ (if opts.auto_revoke && b then revoke_expired (p.iso now) q else q)))
        (overdue-is_expired p opts now q) (sweep_as-Reports p opts now warned q t e) in
    let (rest, others) = sweep_peers-Reports p opts now warned qs first.1 in
    let both = Reports-trans one rest in
    (
      Reports-same (ids_if (is_expired p now q) q (keep (is_expired p now) qs))
          (ids_if (is_swept p opts now q) q (keep (is_swept p opts now) qs)) both,
      ap₂ (λ x xs. x ∷ xs) same others,
    )

keep-false : (qs : List PeerRecord) → keep (λ q. false) qs ≡ []
keep-false [] = refl
keep-false (q ∷ qs) = keep-false qs

swept_ids :
    (p : Platform) (opts : SweepOptions) (now : ℕ) (qs : List PeerRecord)
    → map (λ q. q.id) (keep (is_swept p opts now) qs)
      ≡ (if opts.auto_revoke then map (λ q. q.id) (keep (is_expired p now) qs) else [])
swept_ids p opts now qs = elim (Bool-cases opts.auto_revoke) [
  | inl auto ↦ rw auto refl
  | inr warn ↦ rw warn (ap (map (λ q. q.id)) (keep-false qs))
]

-- A sweep reports exactly the peers that the API shows as expired, in their order; it reports them
-- all as revoked if it is to revoke and none otherwise; and it revokes those peers at the time of
-- the sweep and changes no other peer.
pub sweep_expired-Report :
    (p : Platform) (opts : SweepOptions) (now : ℕ) (c : Context) (r : SweepResult)
    → (sweep_expired p opts now c).0 ≡ ok r
    → (r.expired ≡ map (λ q. q.id) (keep (is_expired p now) c.state.peers))
      × (r.auto_revoked ≡ (if opts.auto_revoke then r.expired else []))
      × ((sweep_expired p opts now c).1.state.peers ≡ map (swept_peer p opts now) c.state.peers)
unfolding sweep_expired
sweep_expired-Report p opts now c r h =
    let start : Tally = record {
      context = c;
      warned_next = c.state.expiry_warned;
      result = record { expired = []; auto_revoked = []; expiring_soon = [] };
      mutated = false;
    } in
    let (rep, peers) = sweep_peers-Reports p opts now c.state.expiry_warned c.state.peers start in
    let e = sym (ok-injective _ r h) in
    let gone : r.expired ≡ map (λ q. q.id) (keep (is_expired p now) c.state.peers) =
      ap (λ (x : SweepResult). x.expired) e ∙ rep.expired in
    (
      gone,
      ap (λ (x : SweepResult). x.auto_revoked) e
          ∙ rep.revoked
          ∙ swept_ids p opts now c.state.peers
          ∙ ap (λ l. if opts.auto_revoke then l else []) (sym gone),
      peers,
    )

revoked-not_expired :
    (p : Platform) (opts : SweepOptions) (now : ℕ) (qs : List PeerRecord)
    → opts.auto_revoke ≡ true
    → keep (is_expired p now) (map (swept_peer p opts now) qs) ≡ []
unfolding swept_peer peer_api_status
revoked-not_expired p opts now [] h = refl
revoked-not_expired p opts now (q ∷ qs) h = elim (Bool-cases (is_expired p now q)) [
  | inl gone ↦ rw (h, gone) (revoked-not_expired p opts now qs h)
  | inr stays ↦ rw (h, stays) (rw stays (revoked-not_expired p opts now qs h))
]

-- After a sweep that revokes, another sweep at the same instant, with any options, reports no
-- expired peer.
pub sweep_expired-again :
    (p : Platform) (first second : SweepOptions) (now : ℕ) (c : Context) (r s : SweepResult)
    → first.auto_revoke ≡ true
    → (sweep_expired p first now c).0 ≡ ok r
    → (sweep_expired p second now (sweep_expired p first now c).1).0 ≡ ok s
    → s.expired ≡ []
sweep_expired-again p first second now c r s auto h k =
    let (ids, revoked, peers) = sweep_expired-Report p first now c r h in
    let (ids', revoked', peers') = sweep_expired-Report p second now _ s k in
    ids'
    ∙ ap (λ qs. map (λ q. q.id) (keep (is_expired p now) qs)) peers
    ∙ ap (map (λ q. q.id)) (revoked-not_expired p first now c.state.peers auto)
