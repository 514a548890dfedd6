-- ===== src/DataStream/Recording.antt =====
-- Which packets are recorded.
use elab_core.Prelude.{
  ℕ, String, ◌≡◌, ◌∙◌, ap, refl, Bool, true, false, not, Option, none, some, List, [], ◌∷◌, ◌++◌,
  ◌&&◌, ◌⊎◌, inl, inr, opt_eq, truthy, arith, if_lem, Option-cases, Bool-cases, subst,
}
use elab_core.Offsets.{Offsets}
use elab_core.State.{emit, ui_clients, data_stream}
use elab_core.Stream.{accepts}
use elab_core.DataStream.{
  Packet, Env, System, Normalized, binary_data, decode_with, decode, decoded, is_active,
  record_packet, distribute, process, normalize_linear, normalize_timestamp, all_numbers,
  shift_array, normalize_array, normalize_times, handle_data_stream,
}

abbrev IsSigned : Packet → Normalized → Type 0
IsSigned x (x', rest) = x'.signed ≡ x.signed

linear-IsSigned :
    (e : Env) (x : Packet) (a b : Option ℕ) (d : Offsets) → IsSigned x (normalize_linear e x a b d)
unfolding normalize_linear
linear-IsSigned e x (some a) (some b) d = if_lem (IsSigned x) _ _ _ (λ _. refl) (λ _. refl)
linear-IsSigned e x (some a) none d = refl
linear-IsSigned e x none b d = refl

timestamp-IsSigned :
    (e : Env) (x : Packet) (t : Option ℕ) (d : Offsets) → IsSigned x (normalize_timestamp e x t d)
unfolding normalize_timestamp
timestamp-IsSigned e x none d = refl
timestamp-IsSigned e x (some t) d = if_lem (IsSigned x) _ _ _ (λ _. refl) (λ _. refl)

unchanged :
    (e : Env) (x : Packet) (rest : Bool × Offsets)
    → all_numbers x.timestamps ≡ none
    → (x, rest) ≡ normalize_array e (x, rest)
unfolding normalize_array
unchanged e x rest a = ground (arith, a)

changed :
    (e : Env) (x : Packet) (rest : Bool × Offsets) (ts : List ℕ)
    → all_numbers x.timestamps ≡ some ts
    → shift_array e ts (x, rest) ≡ normalize_array e (x, rest)
unfolding normalize_array
changed e x rest ts a = ground (arith, a)

shift-IsSigned :
    (e : Env) (x : Packet) (ts : List ℕ) (n : Normalized)
    → IsSigned x n
    → IsSigned x (shift_array e ts n)
unfolding shift_array
shift-IsSigned e x [] n h = h
shift-IsSigned e x (t ∷ ts) (x', rest) h = if_lem (IsSigned x) _ _ _ (λ _. h) (λ _. h)

array-IsSigned :
    (e : Env) (x : Packet) (n : Normalized) → IsSigned x n → IsSigned x (normalize_array e n)
unfolding normalize_array
array-IsSigned e x (x', rest) h = elim (Option-cases (all_numbers x'.timestamps)) [
  | inl a ↦ subst (IsSigned x) (unchanged e x' rest a) h
  | inr (ts, a) ↦ subst (IsSigned x) (changed e x' rest ts a) (shift-IsSigned e x ts (x', rest) h)
]

times-IsSigned : (e : Env) (x : Packet) (d : Offsets) → IsSigned x (normalize_times e x d)
unfolding normalize_times
times-IsSigned e x d =
    if_lem (IsSigned x) (opt_eq x.distribution (some "linear")) _ _
      (λ _. linear-IsSigned e x x.start_time x.end_time d)
      (λ _.
        array-IsSigned e x (normalize_timestamp e x x.timestamp d)
          (timestamp-IsSigned e x x.timestamp d))

decode_signed : (e : Env) (x x' : Packet) → decode e x ≡ some x' → x'.signed ≡ x.signed
unfolding decode decode_with decoded
decode_signed e x x' h = elim (Option-cases (binary_data e x.binary)) [
  | inl b ↦ absurd (ground (arith, h, b))
  | inr (none, b) ↦ ground (arith, h, b)
  | inr (some c, b) ↦ elim (Option-cases (e.decoder x.signed.source_id)) [
    | inl n ↦ ground (arith, h, b, n)
    | inr (f, n) ↦ elim (Option-cases (f c)) [
      | inl m ↦ ground (arith, h, b, n, m)
      | inr (vs, m) ↦ ground (arith, h, b, n, m)
    ]
  ]
]

-- The packet was shown to the user interface.
pub record IsShown (x : Packet) (y y' : System) : Type 0 where
  pub packet : Packet
  pub same_source : packet.signed ≡ x.signed
  pub sent :
      y'.state.sent
      ≡ y.state.sent
        ++ (record {
          room = ui_clients;
          event = data_stream x.signed.source_id packet.values packet.timestamp;
        }
            ∷ [])

abbrev pub Recorded : Packet → System → System → Type 0
Recorded x y y' =
    (y'.recorder ≡ y.recorder)
    ⊎ ((y.state.recording ≡ true) × (is_active x.signed.source_id y.state ≡ true) × IsShown x y y')

distribute-Recorded :
    (e : Env) (server : Bool) (x x' : Packet) (offsets : Offsets) (y : System)
    → x'.signed ≡ x.signed
    → Recorded x y
        (distribute e server x' (record y { state = record y.state { time_offsets = offsets } }))
unfolding distribute record_packet emit
distribute-Recorded e server x x' offsets y same =
    let source = ap (λ p. p.source_id) same in
    elim (Bool-cases (y.state.recording && is_active x.signed.source_id y.state)) [
      | inl on ↦ inr (
        ground (arith, on),
        ground (arith, on),
        record {
          packet = x';
          same_source = same;
          sent =
              ap
                (λ k.
                  y.state.sent
                  ++ (record { room = ui_clients; event = data_stream k x'.values x'.timestamp }
                      ∷ []))
                source;
        },
      )
      | inr off ↦
          let off' : (y.state.recording && is_active x'.signed.source_id y.state) ≡ false =
            ap (λ k. y.state.recording && is_active k y.state) source ∙ off in
          inl (ground (arith, off'))
    ]

dropped :
    (e : Env) (x : Packet) (y : System)
    → decode e (normalize_times e x y.state.time_offsets).0 ≡ none
    → (process e x y).recorder ≡ y.recorder
unfolding process
dropped e x y a = ground (arith, a)

distributed :
    (e : Env) (x x' : Packet) (y : System)
    → decode e (normalize_times e x y.state.time_offsets).0 ≡ some x'
    → let (same, (server, offsets)) = normalize_times e x y.state.time_offsets in
      distribute e server x' (record y { state = record y.state { time_offsets = offsets } })
      ≡ process e x y
unfolding process
distributed e x x' y a = ground (arith, a)

process-Recorded : (e : Env) (x : Packet) (y : System) → Recorded x y (process e x y)
process-Recorded e x y =
    let n = normalize_times e x y.state.time_offsets in
    elim (Option-cases (decode e n.0)) [
      | inl a ↦ inl (dropped e x y a)
      | inr (x', a) ↦ subst (Recorded x y) (distributed e x x' y a) (
          distribute-Recorded e n.1.0 x x' n.1.1 y
            (decode_signed e n.0 x' a ∙ times-IsSigned e x y.state.time_offsets))
    ]

-- A packet either leaves the recorder as it was, or a session is being recorded, a slot runs the task the
-- packet is for, and the packet, with its source, was sent on to the user interface.
pub handle_data_stream-Recorded :
    (e : Env) (sid : String) (x : Packet) (y : System) → Recorded x y (handle_data_stream e sid x y)
unfolding handle_data_stream
handle_data_stream-Recorded e sid x y =
    if_lem (Recorded x y) (not (truthy x.signed.source_id)) _ _ (λ _. inl refl)
      (λ _.
        if_lem (Recorded x y) (accepts e.keys sid x.signed y.state) _ _
          (λ _. process-Recorded e x y) (λ _. inl refl))
