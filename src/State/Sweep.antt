-- ===== src/State/Sweep.antt =====
-- `sweepExpired`: expired peers are revoked or reported, peers near their expiry are warned about.
pub mod Effects
pub mod Report
use kintunnel.Base.{
  ℕ, ◌+◌, ◌-◌, ◌*◌, Bool, true, false, not, ◌&&◌, ◌||◌, Option, none, some, List, [], ◌∷◌, ◌++◌,
  any, leb, ltb, ◌==◌, if◌then◌else◌, or_default, length, Text, lit, text_eq,
}
use kintunnel.Base.Failure.{ok}
use kintunnel.Types.{PeerRecord, PeerStatus, AuditAction, MetaValue, Metadata}
use kintunnel.Platform.{Platform}
use kintunnel.Ip.{is_empty}
use kintunnel.Peers.{is_active_status}
use kintunnel.State.Context.{Context, EventInput, append_event, Outcome}

pub record SweepOptions : Type 0 where
  pub auto_revoke : Bool
  pub warn_within_days : ℕ
  pub actor : Option Text

pub record ExpiringPeer : Type 0 where
  pub peer_id : Text
  pub name : Text
  pub expires_at : Text
  pub days_remaining : Text

pub record SweepResult : Type 0 where
  pub expired : List Text
  pub auto_revoked : List Text
  pub expiring_soon : List ExpiringPeer

-- The variables of the loop.
pub record Tally : Type 0 where
  pub context : Context
  pub warned_next : List (Text × Text)
  pub result : SweepResult
  pub mutated : Bool

abbrev pub day_ms : ℕ
day_ms = 86_400_000

unfoldable pub lookup : Text → List (Text × Text) → Option Text
lookup k [] = none
lookup k ((j, v) ∷ m) = if text_eq j k then some v else lookup k m

unfoldable pub without : Text → List (Text × Text) → List (Text × Text)
without k [] = []
without k ((j, v) ∷ m) = let rest = without k m in if text_eq j k then rest else (j, v) ∷ rest

-- `m[k] = v`
unfoldable pub put : Text → Text → List (Text × Text) → List (Text × Text)
put k v [] = (k, v) ∷ []
put k v ((j, w) ∷ m) = let rest = put k v m in if text_eq j k then (j, v) ∷ m else (j, w) ∷ rest

-- What a peer's expiry asks for; the payload is the expiry text and the distance in milliseconds.
pub data Expiry : Type 0 where
  unaffected : Expiry
  overdue : Text → ℕ → Expiry
  due_soon : Text → ℕ → Expiry

-- `daysRemaining <= warnWithinDays` over whole milliseconds.
abbrev dated : SweepOptions → ℕ → Text → Option ℕ → Expiry
dated opts now text none = unaffected
dated opts now text (some t) =
    if leb t now
    then overdue text (now - t)
    else if ltb 0 opts.warn_within_days && leb (t - now) (opts.warn_within_days * day_ms)
    then due_soon text (t - now)
    else unaffected

abbrev expiry_of_text : Platform → SweepOptions → ℕ → Option Text → Expiry
expiry_of_text p opts now none = unaffected
expiry_of_text p opts now (some text) =
    if is_empty text then unaffected else dated opts now text (p.parse_date text)

unfoldable pub expiry_of : Platform → SweepOptions → ℕ → PeerRecord → Expiry
expiry_of p opts now peer =
    if is_active_status peer.status then expiry_of_text p opts now peer.expires_at else unaffected

abbrev sweep_event : SweepOptions → AuditAction → PeerRecord → Text → Metadata → EventInput
sweep_event opts action peer now_iso metadata = record {
  action = action;
  actor = some (or_default opts.actor (lit "engine.expiry.sweep"));
  target_id = some peer.id;
  target_name = some peer.name;
  created_at = now_iso;
  metadata = some metadata;
}

overdue_entries : Platform → Text → ℕ → Metadata
overdue_entries p text ms =
    (lit "expires_at", MetaValue.text text)
    ∷ (lit "days_overdue", MetaValue.fraction (p.days_fixed ms))
    ∷ []

auto_revoked_event : Platform → SweepOptions → PeerRecord → Text → Text → ℕ → EventInput
unfolding overdue_entries
auto_revoked_event p opts peer now_iso text ms =
    sweep_event opts AuditAction.peer_expired_auto_revoked peer now_iso
      ((lit "previous_status", MetaValue.text (lit "active")) ∷ overdue_entries p text ms)

mirrored_event : Platform → SweepOptions → PeerRecord → Text → Text → ℕ → EventInput
unfolding overdue_entries
mirrored_event p opts peer now_iso text ms =
    sweep_event opts AuditAction.peer_revoked peer now_iso
      ((lit "trigger", MetaValue.text (lit "expiry.auto_revoke")) ∷ overdue_entries p text ms)

warned_event : Platform → SweepOptions → PeerRecord → Text → Text → ℕ → EventInput
unfolding overdue_entries
warned_event p opts peer now_iso text ms =
    sweep_event opts AuditAction.peer_expired_warned peer now_iso
      ((lit "peer_id", MetaValue.text peer.id) ∷ overdue_entries p text ms)

expiring_event : Platform → SweepOptions → PeerRecord → Text → Text → ℕ → EventInput
expiring_event p opts peer now_iso text ms =
    sweep_event opts AuditAction.peer_expiring_warned peer now_iso (
      (lit "expires_at", MetaValue.text text)
      ∷ (lit "days_remaining", MetaValue.fraction (p.days_fixed ms))
      ∷ (lit "warn_within_days", MetaValue.number opts.warn_within_days)
      ∷ [])

revoke_expired : Text → PeerRecord → PeerRecord
revoke_expired now_iso peer = record peer {
  status = PeerStatus.revoked;
  revoked_at = some now_iso;
  updated_at = now_iso;
}

sweep_overdue : Platform → SweepOptions → Text → PeerRecord → Text → ℕ → Tally → PeerRecord × Tally
unfolding revoke_expired auto_revoked_event mirrored_event warned_event
sweep_overdue p opts now_iso peer text ms t =
    let peer' = revoke_expired now_iso peer in
    if opts.auto_revoke
    then (
      peer',
      record {
        context =
            append_event p (mirrored_event p opts peer' now_iso text ms)
              (append_event p (auto_revoked_event p opts peer' now_iso text ms) t.context);
        warned_next = without peer.id t.warned_next;
        result = record t.result {
          expired = t.result.expired ++ peer.id ∷ [];
          auto_revoked = t.result.auto_revoked ++ peer.id ∷ [];
        };
        mutated = true;
      },
    )
    else (
      peer,
      record t {
        context = append_event p (warned_event p opts peer now_iso text ms) t.context;
        result = record t.result { expired = t.result.expired ++ peer.id ∷ [] };
      },
    )

-- More than a day ago, or never, or at no readable time.
last_warned_before : Platform → ℕ → Option Text → Bool
last_warned_before p now none = true
last_warned_before p now (some s) =
    is_empty s || elim (p.parse_date s) [ none ↦ true | some t ↦ ltb (t + day_ms) now ]

sweep_due_soon :
    Platform
    → SweepOptions
    → ℕ
    → List (Text × Text)
    → PeerRecord
    → Text
    → ℕ
    → Tally
    → PeerRecord × Tally
unfolding expiring_event last_warned_before
sweep_due_soon p opts now warned peer text ms t =
    let entry : ExpiringPeer = record {
      peer_id = peer.id;
      name = peer.name;
      expires_at = text;
      days_remaining = p.days_fixed ms;
    } in
    let result = record t.result { expiring_soon = t.result.expiring_soon ++ entry ∷ [] } in
    if last_warned_before p now (lookup peer.id warned)
    then (
      peer,
      record t {
        context = append_event p (expiring_event p opts peer (p.iso now) text ms) t.context;
        warned_next = put peer.id (p.iso now) t.warned_next;
        result = result;
      },
    )
    else (peer, record t { result = result })

sweep_as :
    Platform
    → SweepOptions
    → ℕ
    → List (Text × Text)
    → PeerRecord
    → Tally
    → Expiry
    → PeerRecord × Tally
unfolding sweep_overdue sweep_due_soon
sweep_as p opts now warned peer t unaffected = (peer, t)
sweep_as p opts now warned peer t (overdue text ms) =
    sweep_overdue p opts (p.iso now) peer text ms t
sweep_as p opts now warned peer t (due_soon text ms) =
    sweep_due_soon p opts now warned peer text ms t

pub sweep_peers :
    Platform
    → SweepOptions
    → ℕ
    → List (Text × Text)
    → List PeerRecord
    → Tally
    → List PeerRecord × Tally
unfolding sweep_as
sweep_peers p opts now warned [] t = ([], t)
sweep_peers p opts now warned (peer ∷ peers) t =
    let (peer', t') = sweep_as p opts now warned peer t (expiry_of p opts now peer) in
    let (peers', t'') = sweep_peers p opts now warned peers t' in (peer' ∷ peers', t'')

abbrev differs_from : List (Text × Text) → Text × Text → Bool
differs_from m (k, v) = elim (lookup k m) [ none ↦ true | some w ↦ not (text_eq w v) ]

-- The test for whether the map of warnings is written back.
warnings_changed : Bool → List (Text × Text) → List (Text × Text) → Bool
warnings_changed mutated warned next =
    mutated || not (length next == length warned) || any (differs_from warned) next

unfoldable pub sweep_expired : Platform → SweepOptions → ℕ → Context → Outcome SweepResult
unfolding sweep_peers warnings_changed
sweep_expired p opts now c =
    let warned = c.state.expiry_warned in
    let start : Tally = record {
      context = c;
      warned_next = warned;
      result = record { expired = []; auto_revoked = []; expiring_soon = [] };
      mutated = false;
    } in
    let (peers, t) = sweep_peers p opts now warned c.state.peers start in
    let next = if warnings_changed t.mutated warned t.warned_next then t.warned_next else warned in
    let s = record t.context.state { peers = peers; expiry_warned = next } in
    (ok t.result, record t.context { state = s })
