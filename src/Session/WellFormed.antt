-- ===== src/Session/WellFormed.antt =====
-- backend/wealdrelay/src/session.rs: what holds of a connection between two frames.
use wealdrelay.Base.{
  Once, contains, contains-append, ℕ, ◌≤◌, ◌≡◌, ◌⊎◌, refl, sym, ap, ◌∙◌, arith, true, false, Option,
  none, some, List, [], ◌∷◌, ◌++◌, length, bytes_eq_sym, Bool-cases, Option-cases, inl, inr,
  length-append,
}
use wealdrelay.Frame.Body.{Frame, sub, media}
use wealdrelay.Frame.Decode.Read.{protocol_version, min_protocol_version}
use wealdrelay.Calls.Media
use wealdrelay.Calls.Media.Within.{Within, charge-Within, should_report-Within}
use wealdrelay.Session.Limits.{max_groups_per_connection}
use wealdrelay.Session.FrameBudget.{FrameBudget, roll, charge}
use wealdrelay.Session.Meter.{Session, Meter, budget, set_budget, spend}
use wealdrelay.Session.Arms.{
  hold, on_connect, on_auth, on_send, on_sub, on_recon, on_access, on_wrap, on_join, on_invite,
  on_handshake, on_live, on_keys, key_packages, on_wake, wake_registration, on_call, on_media,
  report, on_blob, on_drop, on_other, metered, calls_unavailable, read_only_refusal, refuse,
  refuse_with, over_rate,
}
use wealdrelay.Session.Handle.{handle, on_frame}
use wealdrelay.Session.Spec.{uses, ceiling}
use wealdrelay.Session.Charges.{handle-charges, handle-ceiling}
use wealdrelay.Session.Rate.{charged-used, charged-unused}

pub record IsWellFormed (s : Session) : Type 0 where
  pub subscribed_few : length s.subscribed ≤ max_groups_per_connection
  pub subscribed_once : Once s.subscribed
  pub requested_few : length s.requested ≤ max_groups_per_connection
  pub version_low : min_protocol_version ≤ s.negotiated_version
  pub version_high : s.negotiated_version ≤ protocol_version
  pub budgets : (n : Meter) → (budget n s).spent ≤ ceiling s n
  pub media_within : Within s.media_budget

charge-spent_le : (b : FrameBudget) (now a : ℕ) → b.spent ≤ a → (charge b now a).0.spent ≤ a
unfolding charge roll
charge-spent_le b now a h = ground arith

append-Once :
    (g : List ℕ) (gs : List (List ℕ)) → contains g gs ≡ false → Once gs → Once (gs ++ (g ∷ []))
unfolding contains
append-Once g [] h o = (refl, tt)
append-Once g (x ∷ xs) h o = (
  ground (arith, contains-append x xs (g ∷ []), bytes_eq_sym x g, o.0),
  append-Once g xs (ground arith) o.1,
)

hold-Once : (g : List ℕ) (gs : List (List ℕ)) → Once gs → Once (hold g gs)
unfolding hold
hold-Once g gs o = elim (Bool-cases (contains g gs)) [
  | inl e ↦ rw e o
  | inr e ↦ rw e (append-Once g gs e o)
]

sub_parts : Frame → Option (List ℕ × ℕ)
sub_parts (sub group from_seq) = some (group, from_seq)
sub_parts _ = none

media_parts : Frame → Option (List ℕ × List ℕ × ℕ × List ℕ)
media_parts (media c t q ct) = some (c, t, q, ct)
media_parts _ = none

subscribed_kept :
    (blake3 : List ℕ → List ℕ) (secret : List ℕ) (s : Session) (f : Frame) (now : ℕ)
    → sub_parts f ≡ none
    → (handle blake3 secret s f now).0.subscribed ≡ s.subscribed
unfolding sub_parts handle on_frame on_connect on_auth on_send on_sub on_recon on_access on_wrap
    on_join on_invite on_handshake on_live on_keys key_packages on_wake wake_registration on_call
    on_media report on_blob on_drop on_other metered spend calls_unavailable read_only_refusal
    refuse refuse_with over_rate set_budget
subscribed_kept blake3 secret s f now h = ground arith

subscribed_after :
    (blake3 : List ℕ → List ℕ) (secret : List ℕ) (s : Session) (f : Frame) (now : ℕ) (g : List ℕ)
    (q : ℕ)
    → sub_parts f ≡ some (g, q)
    → let gs = (handle blake3 secret s f now).0.subscribed in
      (gs ≡ s.subscribed)
      ⊎ ((gs ≡ hold g s.subscribed)
          × (max_groups_per_connection ≤ length s.subscribed → contains g s.subscribed ≡ true))
unfolding sub_parts handle on_frame on_connect on_auth on_send on_sub on_recon on_access on_wrap
    on_join on_invite on_handshake on_live on_keys key_packages on_wake wake_registration on_call
    on_media report on_blob on_drop on_other metered spend calls_unavailable read_only_refusal
    refuse refuse_with over_rate set_budget
subscribed_after blake3 secret s f now g q e = ground arith

length-hold :
    (g : List ℕ) (gs : List (List ℕ))
    → length gs ≤ max_groups_per_connection
    → (max_groups_per_connection ≤ length gs → contains g gs ≡ true)
    → length (hold g gs) ≤ max_groups_per_connection
unfolding hold
length-hold g gs h k = ground (arith, length-append gs (g ∷ []))

handle-subscribed :
    (blake3 : List ℕ → List ℕ) (secret : List ℕ) (s : Session) (f : Frame) (now : ℕ)
    → length s.subscribed ≤ max_groups_per_connection
    → Once s.subscribed
    → let gs = (handle blake3 secret s f now).0.subscribed in
      (length gs ≤ max_groups_per_connection) × Once gs
handle-subscribed blake3 secret s f now h o = elim (Option-cases (sub_parts f)) [
  | inl e ↦ rw (subscribed_kept blake3 secret s f now e) (h, o)
  | inr ((g, q), e) ↦ elim (subscribed_after blake3 secret s f now g q e) [
    | inl same ↦ rw same (h, o)
    | inr (held, few) ↦ rw held (length-hold g s.subscribed h few, hold-Once g s.subscribed o)
  ]
]

media_kept :
    (blake3 : List ℕ → List ℕ) (secret : List ℕ) (s : Session) (f : Frame) (now : ℕ)
    → media_parts f ≡ none
    → (handle blake3 secret s f now).0.media_budget ≡ s.media_budget
unfolding media_parts handle on_frame on_connect on_auth on_send on_sub on_recon on_access on_wrap
    on_join on_invite on_handshake on_live on_keys key_packages on_wake wake_registration on_call
    on_blob on_drop on_other metered spend calls_unavailable read_only_refusal refuse refuse_with
    over_rate set_budget
media_kept blake3 secret s f now h = ground arith

-- What MEDIA leaves of its budget.
media_after :
    (blake3 : List ℕ → List ℕ) (secret : List ℕ) (s : Session) (f : Frame) (now : ℕ) (c t : List ℕ)
    (q : ℕ) (ct : List ℕ)
    → media_parts f ≡ some (c, t, q, ct)
    → let b = (handle blake3 secret s f now).0.media_budget in
      let after = (Media.charge s.media_budget now c t (length ct)).0 in
      (b ≡ s.media_budget) ⊎ ((b ≡ after) ⊎ (b ≡ (Media.should_report after now).0))
unfolding media_parts handle on_frame on_connect on_auth on_send on_sub on_recon on_access on_wrap
    on_join on_invite on_handshake on_live on_keys key_packages on_wake wake_registration on_call
    on_media report on_blob on_drop on_other metered spend calls_unavailable read_only_refusal
    refuse refuse_with over_rate set_budget
media_after blake3 secret s f now c t q ct e = ground arith

handle-media :
    (blake3 : List ℕ → List ℕ) (secret : List ℕ) (s : Session) (f : Frame) (now : ℕ)
    → Within s.media_budget
    → Within (handle blake3 secret s f now).0.media_budget
handle-media blake3 secret s f now h = elim (Option-cases (media_parts f)) [
  | inl e ↦ rw (media_kept blake3 secret s f now e) h
  | inr ((c, t, q, ct), e) ↦
      let after = charge-Within s.media_budget now c t (length ct) h in
      elim (media_after blake3 secret s f now c t q ct e) [
        | inl same ↦ rw same h
        | inr (inl charged_media) ↦ rw charged_media after
        | inr (inr reported) ↦ rw reported (should_report-Within _ now after)
      ]
]

handle-budgets :
    (blake3 : List ℕ → List ℕ) (secret : List ℕ) (s : Session) (f : Frame) (now : ℕ) (n : Meter)
    → (budget n s).spent ≤ ceiling s n
    → (budget n (handle blake3 secret s f now).0).spent ≤ ceiling (handle blake3 secret s f now).0 n
handle-budgets blake3 secret s f now n h =
    let reaction = (handle blake3 secret s f now).1 in
    let spending = handle-charges blake3 secret s f now n in
    let same = handle-ceiling blake3 secret s f now n in
    elim (Bool-cases (uses n reaction)) [
      | inl e ↦
          let b = ap (λ p. p.0) (sym (charged-used s n reaction now e) ∙ spending) in
          rw (same, ← b) (charge-spent_le (budget n s) now (ceiling s n) h)
      | inr e ↦
          let b = ap (λ p. p.0) (sym (charged-unused s n reaction now e) ∙ spending) in
          rw (same, ← b) h
    ]

handle-limits :
    (blake3 : List ℕ → List ℕ) (secret : List ℕ) (s : Session) (f : Frame) (now : ℕ)
    → length s.requested ≤ max_groups_per_connection
    → min_protocol_version ≤ s.negotiated_version
    → s.negotiated_version ≤ protocol_version
    → let after = (handle blake3 secret s f now).0 in
      (length after.requested ≤ max_groups_per_connection)
      × (min_protocol_version ≤ after.negotiated_version)
      × (after.negotiated_version ≤ protocol_version)
unfolding handle on_frame on_connect on_auth on_send on_sub on_recon on_access on_wrap on_join
    on_invite on_handshake on_live on_keys key_packages on_wake wake_registration on_call on_media
    report on_blob on_drop on_other metered spend calls_unavailable read_only_refusal refuse
    refuse_with over_rate set_budget
handle-limits blake3 secret s f now h l u = ground arith

-- Every frame keeps a well-formed session well formed.
pub handle-IsWellFormed :
    (blake3 : List ℕ → List ℕ) (secret : List ℕ) (s : Session) (f : Frame) (now : ℕ)
    → IsWellFormed s
    → IsWellFormed (handle blake3 secret s f now).0
handle-IsWellFormed blake3 secret s f now h =
    let (few, once) = handle-subscribed blake3 secret s f now h.subscribed_few h.subscribed_once in
    let (requested, low, high) =
      handle-limits blake3 secret s f now h.requested_few h.version_low h.version_high in
    record {
      subscribed_few = few;
      subscribed_once = once;
      requested_few = requested;
      version_low = low;
      version_high = high;
      budgets = λ n. handle-budgets blake3 secret s f now n (h.budgets n);
      media_within = handle-media blake3 secret s f now h.media_within;
    }
