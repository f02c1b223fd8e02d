-- ===== src/State/Peers/Success.antt =====
-- What `createPeer` stores and returns when it succeeds.
use kintunnel.Base.{
  true, ap, sym, ◌∙◌, ℕ, ◌+◌, ◌≡◌, refl, Bool, false, not, ◌&&◌, ◌||◌, Option, none, some, [], ◌∷◌,
  ◌++◌, any, Text, lit, trim, text_eq, Bool-cases, inl, inr, is_some,
}
use mathlib.Core.Path.{subst}
use kintunnel.Base.Failure.{Result, ok, err, ok-injective, >>=-eq-ok}
use kintunnel.Types.{EngineConfig, PeerRecord, KeyPair}
use kintunnel.Platform.{Platform}
use kintunnel.Ip.{is_empty}
use kintunnel.Keys.{generate_key_pair}
use kintunnel.State.Context.{Context, append_event}
use kintunnel.State.Requests.{PeerCreate}
use kintunnel.State.Peers.{
  chosen_key, private_part, is_live, add_peer, announce_device, create_peer, create_peer_in_state,
  store_peer, draw_keys,
}
use kintunnel.State.Validity.{taken}
use kintunnel.State.Peers.Creation.{IsNew, new_peer-IsNew}

-- The peers after it, and the revision.
record Stores (x : PeerRecord) (c c' : Context) : Type 0 where
  peers : c'.state.peers ≡ c.state.peers ++ x ∷ []
  revision : c'.state.revision ≡ c.state.revision + 1

announce_device-Stores :
    (p : Platform) (y : PeerRecord) (now : Text) (o : Option Text) {x : PeerRecord} {c c' : Context}
    → Stores x c c'
    → Stores x c (announce_device p y now o c')
unfolding announce_device append_event
announce_device-Stores p y now none s = s
announce_device-Stores p y now (some id) s = elim (Bool-cases (is_empty id)) [
  | inl blank ↦ rw blank s
  | inr named ↦ rw named (record { peers = s.peers; revision = s.revision })
]

add_peer-Stores :
    (p : Platform) (generated : Bool) (x : PeerRecord) (now : Text) (c : Context)
    → Stores x c (add_peer p generated x now c)
unfolding add_peer append_event
add_peer-Stores p generated x now c =
    announce_device-Stores p x now x.person_id (record { peers = refl; revision = refl })

-- A key pair is drawn exactly when it is asked for or no key came with the request.
abbrev pub generates : PeerCreate → Bool
generates body = body.generate_keys || not (is_some body.public_key)

-- The pair that `createPeerInState` draws for a peer.
abbrev pub drawn_keys : Platform → EngineConfig → PeerCreate → Context → Result (Option KeyPair)
drawn_keys p config body c =
    (draw_keys p config.dry_run (generates body)
      (lit "peer:" ++ (p.uuid c.drawn ++ (lit ":" ++ trim body.name))) (c.drawn + 1)).0

pub record Created (p : Platform) (config : EngineConfig) (body : PeerCreate) (now : ℕ)
    (c c' : Context) (x : PeerRecord) : Type 0 where
  pub name_free : taken (λ q. q.name) (trim body.name) c.state.peers ≡ false
  pub pair : Option KeyPair
  pub drawn : drawn_keys p config body c ≡ ok pair
  pub new : IsNew body (trim body.name) (p.uuid c.drawn) (p.iso now) pair c.state x
  pub peers : c'.state.peers ≡ c.state.peers ++ x ∷ []
  pub revision : c'.state.revision ≡ c.state.revision + 1

store_peer-Stores :
    (p : Platform) (generated : Bool) (now : Text) (c : Context) (r : Result PeerRecord)
    → (x : PeerRecord) → (store_peer p generated now c r).0 ≡ ok x
    → (r ≡ ok x) × Stores x c (store_peer p generated now c r).1
unfolding store_peer
store_peer-Stores p generated now c (err e) x h = cc
store_peer-Stores p generated now c (ok y) x h = (
  h,
  subst (λ z. Stores z c (add_peer p generated y now c)) (ok-injective y x h)
      (add_peer-Stores p generated y now c),
)

-- When the creation of a peer succeeds, its trimmed name was free among live peers, the new peer
-- has the key that was sent or drawn, the private key that was drawn, an address from the
-- allocator and the person that was asked for, it stands last in the list, and the revision went
-- up by one.
pub create_peer-Created :
    (p : Platform) (config : EngineConfig) (body : PeerCreate) (now : ℕ) (c : Context)
    → (x : PeerRecord) → (create_peer p config body now c).0 ≡ ok x
    → Created p config body now c (create_peer p config body now c).1 x
unfolding create_peer create_peer_in_state
create_peer-Created p config body now c x h =
    elim (Bool-cases (any (λ q. is_live q && text_eq q.name (trim body.name)) c.state.peers)) [
      | inl clash ↦ let refused = rw clash at h in cc
      | inr free ↦
          let h' = rw free at h in
          let (made, s) = store_peer-Stores p _ _ _ _ x h' in
          let (pair, drawn, made') = >>=-eq-ok _ _ made in
          rw free (record {
            name_free = free;
            pair = pair;
            drawn = drawn;
            new =
                new_peer-IsNew body (trim body.name) (p.uuid c.drawn) (p.iso now) pair c.state x
                  made';
            peers = Stores.peers s;
            revision = Stores.revision s;
          })
    ]

draw_keys-some :
    (p : Platform) (dry_run wanted : Bool) (seed : Text) (n : ℕ) (o : Option KeyPair)
    → wanted ≡ true
    → (draw_keys p dry_run wanted seed n).0 ≡ ok o
    → (pair : KeyPair) × (o ≡ some pair)
unfolding draw_keys
draw_keys-some p dry_run false seed n o h k = cc
draw_keys-some p dry_run true seed n o h k =
    let (pair, _, e) = >>=-eq-ok (generate_key_pair p dry_run seed n).0 _ k in
    (pair, sym (ok-injective (some pair) o e))

-- When the creation of a peer succeeds for a request that sends a public key and also asks for
-- keys to be generated, the peer gets the public key that was sent and the private key of the pair
-- that was drawn.
pub create_peer-mixed_keys :
    (p : Platform) (config : EngineConfig) (body : PeerCreate) (now : ℕ) (c : Context)
    → (x : PeerRecord) (k : Text) → body.public_key ≡ some k
    → body.generate_keys ≡ true
    → (create_peer p config body now c).0 ≡ ok x
    → (pair : KeyPair) × (drawn_keys p config body c ≡ ok (some pair))
      × (x.public_key ≡ k)
      × (x.private_key ≡ some pair.private_key)
create_peer-mixed_keys p config body now c x k sent asked h =
    let made = create_peer-Created p config body now c x h in
    let always : generates body ≡ true = ap (λ b. b || not (is_some body.public_key)) asked in
    let (pair, e) =
      draw_keys-some p config.dry_run (generates body) _ _ made.pair always made.drawn in
    let key : chosen_key (some k) made.pair ≡ some x.public_key =
      subst (λ o. chosen_key o made.pair ≡ some x.public_key) sent (IsNew.key_of made.new) in
    (
      pair,
      made.drawn ∙ ap ok e,
      own_key k made.pair x.public_key key,
      IsNew.private_of made.new ∙ ap private_part e ∙ private_pair pair,
    )
  where
    own_key : (k : Text) (o : Option KeyPair) (j : Text) → chosen_key (some k) o ≡ some j → j ≡ k
    own_key k o j h = unfold chosen_key in cc

    private_pair : (pair : KeyPair) → private_part (some pair) ≡ some pair.private_key
    private_pair pair = unfold private_part in refl
