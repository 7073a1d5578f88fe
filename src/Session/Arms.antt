-- ===== src/Session/Arms.antt =====
-- backend/wealdrelay/src/session.rs: the handler of a connection, one function for each arm of its
-- `match`. The hash and the process's secret are parameters of what makes the challenge.
use wealdrelay.Base.{
  ℕ, ◌+◌, ◌-◌, ◌^◌, Bool, true, false, ◌&&◌, ◌||◌, not, Option, none, some, List, [], ◌∷◌, ◌++◌,
  ltb, leb, ◌==◌, if◌then◌else◌, length, min, ok, err, to_be_bytes, contains,
}
use wealdrelay.Frame.Code.{
  ErrorCode, rate_limited, protocol_unsupported, service_read_only, envelope_too_large,
  malformed_header, push_handle_malformed, new_error, with_retry_after, with_detail,
}
use wealdrelay.Frame.Body.{
  Frame, connect_ack, auth_challenge, bye, error, KeysBody, publish, fetch, WakeBody, register,
  clear, query,
}
use wealdrelay.Frame.Decode.Read.{protocol_version, min_protocol_version}
use wealdrelay.Push.Category.{expiry_in_bounds}
use wealdrelay.Calls.{
  from_u8, call_id_bytes, stream_bytes, max_call_body_bytes, max_media_ct_bytes,
  call_frames_per_minute,
}
use wealdrelay.Calls.Media
use wealdrelay.Session.Limits
use wealdrelay.Session.Limits.{read_only, live_off, live_on, calls_on, calls_off, full}
use wealdrelay.Session.Work.{Work, Reaction, reply, reply_and_close, defer}
use wealdrelay.Session.Meter.{challenged, closed, Session, Meter, spend, join_allowance, ℤ, ◌⊖◌}

-- One error frame with this code.
unfoldable pub refuse : ErrorCode → Reaction
unfolding new_error
refuse code = reply (error (new_error code) ∷ [])

unfoldable pub refuse_with : ErrorCode → ℕ → Reaction
unfolding new_error with_detail to_be_bytes
refuse_with code limit = reply (error (with_detail (to_be_bytes 8 limit) (new_error code)) ∷ [])

-- The answer to a frame over its allowance.
unfoldable pub over_rate : ℕ → Reaction
unfolding new_error with_detail with_retry_after to_be_bytes
over_rate allowance = reply (
    error (with_detail (to_be_bytes 8 allowance) (with_retry_after 60 (new_error rate_limited)))
    ∷ [])

unfoldable pub refuses_writes : Session → Bool
refuses_writes s = elim s.write_mode [ read_only ↦ true | full ↦ false ]

unfoldable pub read_only_refusal : Session → Option Reaction
unfolding refuses_writes
read_only_refusal s = if refuses_writes s then some (refuse service_read_only) else none

unfoldable pub calls_unavailable : Session → Option Reaction
calls_unavailable s = elim s.calls [
  | calls_off ↦ some (refuse protocol_unsupported)
  | calls_on ↦ none
]

-- `if let Some(refusal) = … { return refusal; }`
abbrev pub unless : Option Reaction → Session → Session × Reaction → Session × Reaction
unless (some refusal) s rest = (s, refusal)
unless none s rest = rest

abbrev pub close : Session → List Frame → Session × Reaction
close s frames = (record s { state = closed }, reply_and_close frames)

-- A budget's charge, and the work when it fits.
unfoldable pub metered : Meter → ℕ → Work → Session → ℕ → Session × Reaction
unfolding spend
metered m allowance work s now =
    let (s', fits) = spend m allowance s now in
    (s', if fits then defer work else over_rate allowance)

-- `unwrap_or(i64::MAX)`
abbrev to_i64 : ℕ → ℕ
to_i64 n = min n (2 ^ 63 - 1)

unfoldable pub skew : ℕ → ℕ → Option ℤ
skew client relay =
    let a = to_i64 client in
    let b = to_i64 relay in
    if ltb Limits.clock_skew_limit_ms ((a - b) + (b - a)) then some (a ⊖ b) else none

unfoldable pub concat : List (List ℕ) → List ℕ
concat [] = []
concat (group ∷ groups) = group ++ concat groups

-- The bytes "weald relay challenge v1".
abbrev challenge_label : List ℕ
challenge_label =
    119 ∷ 101 ∷ 97 ∷ 108 ∷ 100 ∷ 32 ∷ 114 ∷ 101 ∷ 108 ∷ 97 ∷ 121 ∷ 32 ∷ 99 ∷ 104 ∷ 97 ∷ 108 ∷ 108
    ∷ 101 ∷ 110 ∷ 103 ∷ 101 ∷ 32 ∷ 118 ∷ 49 ∷ []

unfoldable pub challenge_bytes : (List ℕ → List ℕ) → List ℕ → ℕ → List (List ℕ) → ℕ → List ℕ
unfolding concat to_be_bytes
challenge_bytes blake3 secret now groups nonce =
    blake3 (challenge_label ++ secret ++ to_be_bytes 8 nonce ++ to_be_bytes 8 now ++ concat groups)

module _ (blake3 : List ℕ → List ℕ) (secret : List ℕ) where
  unfoldable pub on_connect : ℕ → List (List ℕ) → ℕ → Session → ℕ → Session × Reaction
  unfolding skew challenge_bytes to_be_bytes new_error with_detail
  on_connect version groups sent_at s now =
      if ltb version min_protocol_version
      then close s (
          error (with_detail (to_be_bytes 2 protocol_version) (new_error protocol_unsupported))
          ∷ [])
      else let s' = record s { negotiated_version = min version protocol_version } in
        if ltb Limits.max_groups_per_connection (length groups)
        then close s' (
            error (
              with_detail (to_be_bytes 8 Limits.max_groups_per_connection) (new_error rate_limited))
            ∷ [])
        else let challenge = challenge_bytes blake3 secret now groups s.connection_nonce in
          (
            record s' {
              requested = groups;
              skew_ms = skew sent_at now;
              challenge = challenge;
              state = challenged;
            },
            reply (
                connect_ack (min version protocol_version) now s.min_enc
                ∷ auth_challenge challenge
                ∷ []),
          )

unfoldable pub on_auth : List ℕ → List ℕ → Session → Session × Reaction
on_auth device_key signature s =
    (record s { challenge = [] }, defer (Work.authenticate device_key signature s.challenge))

unfoldable pub on_send : List ℕ → Session → Session × Reaction
unfolding read_only_refusal
on_send envelope s = unless (read_only_refusal s) s (s, defer (Work.accept envelope))

unfoldable pub hold : List ℕ → List (List ℕ) → List (List ℕ)
unfolding contains
hold group held = if contains group held then held else held ++ (group ∷ [])

unfoldable pub on_sub : List ℕ → ℕ → Session → ℕ → Session × Reaction
unfolding contains spend hold
on_sub group from_seq s now =
    if leb Limits.max_groups_per_connection (length s.subscribed)
      && not (contains group s.subscribed)
    then (s, refuse_with rate_limited Limits.max_groups_per_connection)
    else let (s', fits) = spend Meter.sub Limits.sub_frames_per_minute s now in
      if fits
      then (
        record s' { subscribed = hold group s'.subscribed },
        defer (Work.subscribe group from_seq),
      )
      else (s', over_rate Limits.sub_frames_per_minute)

unfoldable pub on_recon : List ℕ → List ℕ → Session → ℕ → Session × Reaction
unfolding metered
on_recon group payload =
    metered Meter.recon Limits.recon_frames_per_minute (Work.reconcile group payload)

unfoldable pub on_access : List ℕ → Session → ℕ → Session × Reaction
unfolding metered read_only_refusal
on_access body s now =
    unless (read_only_refusal s) s
      (metered Meter.access Limits.access_frames_per_minute (Work.rotate_access_set body) s now)

unfoldable pub on_wrap : List ℕ → Session → ℕ → Session × Reaction
unfolding metered read_only_refusal
on_wrap body s now =
    unless (read_only_refusal s) s
      (metered Meter.wrap Limits.wrap_frames_per_minute (Work.publish_wrap body) s now)

unfoldable pub on_join : List ℕ → Session → ℕ → Session × Reaction
unfolding metered join_allowance
on_join body s = metered Meter.join (join_allowance s) (Work.redeem body) s

unfoldable pub on_invite : List ℕ → Session → ℕ → Session × Reaction
unfolding metered read_only_refusal
on_invite body s now =
    unless (read_only_refusal s) s
      (metered Meter.invite Limits.invite_frames_per_minute (Work.administer_invite body) s now)

unfoldable pub on_handshake : List ℕ → List ℕ → Session → ℕ → Session × Reaction
unfolding metered read_only_refusal
on_handshake group message s now = unless (read_only_refusal s) s (
    metered Meter.handshake Limits.handshake_frames_per_minute
      (Work.publish_handshake group message) s now)

unfoldable pub on_live : List ℕ → ℕ → List ℕ → Session → ℕ → Session × Reaction
unfolding metered
on_live group epoch ct s now = elim s.live [
  | live_off ↦ (s, refuse protocol_unsupported)
  | live_on ↦
      if ltb Limits.max_live_bytes (length ct)
      then (s, refuse_with envelope_too_large Limits.max_live_bytes)
      else metered Meter.live Limits.live_frames_per_minute (Work.publish_live group epoch ct) s now
]

-- The budget of KEYS, on which both of its forms end.
unfoldable pub key_packages : KeysBody → Session → ℕ → Session × Reaction
unfolding metered
key_packages body = metered Meter.keys Limits.keys_frames_per_minute (Work.key_packages body)

unfoldable pub on_keys : KeysBody → Session → ℕ → Session × Reaction
unfolding key_packages read_only_refusal new_error
on_keys (publish packages) s now =
    unless (read_only_refusal s) s (key_packages (publish packages) s now)
on_keys (fetch device count) s now =
    if (count == 0) || ltb Limits.max_key_package_fetch count
    then (s, refuse_with envelope_too_large Limits.max_key_package_fetch)
    else key_packages (fetch device count) s now
on_keys _ s now = close s (error (new_error malformed_header) ∷ [])

-- The budget of WAKE, on which each of its forms ends.
unfoldable pub wake_registration : WakeBody → Session → ℕ → Session × Reaction
unfolding metered
wake_registration body =
    metered Meter.wake Limits.wake_frames_per_minute (Work.wake_registration body)

unfoldable pub on_wake : WakeBody → Session → ℕ → Session × Reaction
unfolding wake_registration read_only_refusal expiry_in_bounds new_error
on_wake (register handle categories expires_at) s now = unless (read_only_refusal s) s (
    if expiry_in_bounds expires_at now
    then wake_registration (register handle categories expires_at) s now
    else (s, refuse push_handle_malformed))
on_wake clear s now = unless (read_only_refusal s) s (wake_registration clear s now)
on_wake query s now = wake_registration query s now
on_wake _ s now = close s (error (new_error malformed_header) ∷ [])

unfoldable pub on_call : List ℕ → List ℕ → ℕ → ℕ → List ℕ → Session → ℕ → Session × Reaction
unfolding metered calls_unavailable from_u8
on_call call_id group epoch kind body s now = unless (calls_unavailable s) s (elim (from_u8 kind) [
  | none ↦ (s, refuse malformed_header)
  | some kind ↦
      if not (length call_id == call_id_bytes)
      then (s, refuse malformed_header)
      else if ltb max_call_body_bytes (length body)
      then (s, refuse_with envelope_too_large max_call_body_bytes)
      else metered Meter.call call_frames_per_minute
          (Work.publish_call call_id group epoch kind body) s now
])

-- The answer to a media frame over the budget, at most one in a second.
unfoldable pub report : Media.MediaRefusal → Session → ℕ → Session × Reaction
unfolding Media.should_report Media.code Media.retry_after Media.detail new_error with_detail
    with_retry_after to_be_bytes
report refusal s now =
    let (b, fresh_refusal) = Media.should_report s.media_budget now in
    (
      record s { media_budget = b },
      reply (
          if fresh_refusal
          then error (
              with_detail (to_be_bytes 8 (Media.detail refusal))
                (with_retry_after (Media.retry_after refusal) (new_error (Media.code refusal))))
            ∷ []
          else []),
    )

unfoldable pub on_media : List ℕ → List ℕ → ℕ → List ℕ → Session → ℕ → Session × Reaction
unfolding Media.charge calls_unavailable report
on_media call_id stream seq ct s now = unless (calls_unavailable s) s (
    if ltb max_media_ct_bytes (length ct)
    then (s, refuse_with envelope_too_large max_media_ct_bytes)
    else if not ((length call_id == call_id_bytes) && (length stream == stream_bytes))
    then (s, refuse malformed_header)
    else let (b, verdict) = Media.charge s.media_budget now call_id stream (length ct) in
      let s' = record s { media_budget = b } in
      elim verdict [
        | ok _ ↦ (s', defer (Work.publish_media call_id stream seq ct))
        | err refusal ↦ report refusal s' now
      ])

unfoldable pub on_blob : List ℕ → Session → ℕ → Session × Reaction
unfolding metered
on_blob payload = metered Meter.blob Limits.blob_frames_per_minute (Work.blob_ticket payload)

unfoldable pub on_drop : List ℕ → Session → ℕ → Session × Reaction
unfolding metered read_only_refusal
on_drop payload s now =
    unless (read_only_refusal s) s
      (metered Meter.drop Limits.drop_frames_per_minute (Work.drop_before payload) s now)

abbrev pub on_bye : Session → Session × Reaction
on_bye s = close s (bye [] ∷ [])

-- The last arm: any other frame ends the connection.
unfoldable pub on_other : Session → Session × Reaction
unfolding new_error
on_other s = close s (error (new_error malformed_header) ∷ [])
