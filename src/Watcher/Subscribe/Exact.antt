-- ===== src/Watcher/Subscribe/Exact.antt =====
-- Which bytes the decoder accepts (watcher/src/subscribe.rs).
use proof_of_thought.Prelude.{
  ◌^◌, ◌<◌, ◌≡◌, ◌↔◌, refl, sym, ap, ◌∙◌, [], ◌++◌, length, take, drop, arith, Bool, true, some,
}
use mathlib.Core.Path.{subst}
use proof_of_thought.Watcher.Types.{
  Bytes, le_bytes, same_bytes, same_bytes_sound, ThoughtSubmittedEvent,
}
use proof_of_thought.Watcher.Subscribe.{
  Cursor, parsed, take_bytes, read_number, read_borsh_string, encode, same_bytes,
  decode_thought_submitted_body, parse_anchor_event_bytes,
}
use proof_of_thought.Watcher.Subscribe.RoundTrip.{
  encode_fields, Before, IsEncodable, parse_anchor_event_bytes-encode,
}
use proof_of_thought.Watcher.Subscribe.Fields.{
  >>=-eq-parsed, parsed-injective, field, text_field, AreBytes, AreBytes-++, take-drop,
  take_bytes-parsed, read_number-parsed, read_number-then,
}

module _ (is_utf8 : Bytes → Bool) where
  read_borsh_string-parsed :
      (c c' : Cursor) (rest s : Bytes)
      → Before c rest
      → AreBytes rest
      → read_borsh_string is_utf8 c ≡ parsed (s, c')
      → (post : Bytes) × (rest ≡ le_bytes 4 (length s) ++ (s ++ post))
        × (length s < 2 ^ 32)
        × (is_utf8 s ≡ true)
  unfolding read_borsh_string
  read_borsh_string-parsed c c' rest s before small h =
      let ((len, c₁), sized, h₁) = >>=-eq-parsed (read_number 4 c) _ h in
      let (post₁, split₁, fits, small₁, b₁) =
        read_number-parsed c c₁ 4 len rest before small sized in
      let ((text, c₂), taken, h₂) = >>=-eq-parsed (take_bytes len c₁) _ h₁ in
      let (post₂, split₂, size, b₂) = take_bytes-parsed c₁ c₂ len post₁ text b₁ taken in
      let same : text ≡ s = ground arith in
      let valid : is_utf8 text ≡ true = ground arith in
      let whole : length s ≡ len = cc in (post₂, cc, omega arith, cc)

  decode-parsed :
      (body : Bytes) (ev : ThoughtSubmittedEvent)
      → AreBytes body
      → decode_thought_submitted_body is_utf8 body ≡ parsed ev
      → (rest : Bytes) × (body ≡ encode ev ++ rest) × IsEncodable is_utf8 ev
  unfolding decode_thought_submitted_body
  decode-parsed body ev s₀ h₀ =
      read_number-then 32 (record { buf = body; pos = 0 }) _ body ([], refl, refl) s₀ h₀
        (λ x₁ c₁ r₁ p₁ f₁ s₁ b₁ h₁. read_number-then 32 c₁ _ r₁ b₁ s₁ h₁ (λ x₂ c₂ r₂ p₂ f₂ s₂ b₂ h₂.
          read_number-then 32 c₂ _ r₂ b₂ s₂ h₂ (λ x₃ c₃ r₃ p₃ f₃ s₃ b₃ h₃.
            read_number-then 32 c₃ _ r₃ b₃ s₃ h₃ (λ x₄ c₄ r₄ p₄ f₄ s₄ b₄ h₄.
              read_number-then 32 c₄ _ r₄ b₄ s₄ h₄ (λ x₅ c₅ r₅ p₅ f₅ s₅ b₅ h₅.
                read_number-then 32 c₅ _ r₅ b₅ s₅ h₅ (λ x₆ c₆ r₆ p₆ f₆ s₆ b₆ h₆.
                  read_number-then 32 c₆ _ r₆ b₆ s₆ h₆ (λ x₇ c₇ r₇ p₇ f₇ s₇ b₇ h₇.
                    read_number-then 32 c₇ _ r₇ b₇ s₇ h₇ (λ x₈ c₈ r₈ p₈ f₈ s₈ b₈ h₈.
                      read_number-then 8 c₈ _ r₈ b₈ s₈ h₈ (λ x₉ c₉ r₉ p₉ f₉ s₉ b₉ h₉.
                        let ((uri, c₁₀), e₁₀, h₁₀) =
                          >>=-eq-parsed (read_borsh_string is_utf8 c₉) _ h₉ in
                        let (r₁₀, p₁₀, f₁₀, valid) =
                          read_borsh_string-parsed c₉ c₁₀ r₉ uri b₉ s₉ e₁₀ in
                        let made : record {
                          agent = x₁;
                          thought_pda = x₂;
                          model_id = x₃;
                          input_commitment = x₄;
                          output_commitment = x₅;
                          trace_uri_hash = x₆;
                          vrf_seed = x₇;
                          policy_id = x₈;
                          slot = x₉;
                          trace_uri = uri;
                        }
                            ≡ ev =
                          parsed-injective h₁₀ in
                        let q₁ : x₁ ≡ ev.agent = ap (λ v. v.agent) made in
                        let q₂ : x₂ ≡ ev.thought_pda = ap (λ v. v.thought_pda) made in
                        let q₃ : x₃ ≡ ev.model_id = ap (λ v. v.model_id) made in
                        let q₄ : x₄ ≡ ev.input_commitment = ap (λ v. v.input_commitment) made in
                        let q₅ : x₅ ≡ ev.output_commitment = ap (λ v. v.output_commitment) made in
                        let q₆ : x₆ ≡ ev.trace_uri_hash = ap (λ v. v.trace_uri_hash) made in
                        let q₇ : x₇ ≡ ev.vrf_seed = ap (λ v. v.vrf_seed) made in
                        let q₈ : x₈ ≡ ev.policy_id = ap (λ v. v.policy_id) made in
                        let q₉ : x₉ ≡ ev.slot = ap (λ v. v.slot) made in
                        let q₁₀ : uri ≡ ev.trace_uri = ap (λ v. v.trace_uri) made in
                        (
                          r₁₀,
                          field 32 p₁ q₁ (
                                field 32 p₂ q₂ (
                                  field 32 p₃ q₃ (
                                    field 32 p₄ q₄ (
                                      field 32 p₅ q₅ (
                                        field 32 p₆ q₆ (
                                          field 32 p₇ q₇ (
                                            field 32 p₈ q₈
                                              (field 8 p₉ q₉ (text_field r₁₀ p₁₀ q₁₀)))))))))
                              ∙ sym (encode_fields ev r₁₀),
                          record {
                            agent_fits = subst (λ x. x < 256 ^ 32) q₁ f₁;
                            thought_pda_fits = subst (λ x. x < 256 ^ 32) q₂ f₂;
                            model_id_fits = subst (λ x. x < 256 ^ 32) q₃ f₃;
                            input_commitment_fits = subst (λ x. x < 256 ^ 32) q₄ f₄;
                            output_commitment_fits = subst (λ x. x < 256 ^ 32) q₅ f₅;
                            trace_uri_hash_fits = subst (λ x. x < 256 ^ 32) q₆ f₆;
                            vrf_seed_fits = subst (λ x. x < 256 ^ 32) q₇ f₇;
                            policy_id_fits = subst (λ x. x < 256 ^ 32) q₈ f₈;
                            slot_fits = subst (λ x. x < 256 ^ 8) q₉ f₉;
                            trace_uri_fits = subst (λ u. length u < 2 ^ 32) q₁₀ f₁₀;
                            trace_uri_text = subst (λ u. is_utf8 u ≡ true) q₁₀ valid;
                          },
                        ))))))))))

  -- Whatever bytes decode to an event are the discriminator, the Borsh form of just this event and
  -- further bytes, and the fields of the event fit their widths and its URI is text.
  parse_anchor_event_bytes-parsed :
      (discriminator bytes : Bytes) (ev : ThoughtSubmittedEvent)
      → AreBytes bytes
      → parse_anchor_event_bytes is_utf8 discriminator bytes ≡ parsed (some ev)
      → (rest : Bytes) × (bytes ≡ discriminator ++ (encode ev ++ rest)) × IsEncodable is_utf8 ev
  unfolding parse_anchor_event_bytes
  parse_anchor_event_bytes-parsed discriminator bytes ev small h =
      let (_, tail) =
        AreBytes-++ (take 8 bytes) (drop 8 bytes)
          (subst AreBytes (sym (take-drop 8 bytes)) small) in
      let same : same_bytes (take 8 bytes) discriminator ≡ true = ground arith in
      let body : (decode_thought_submitted_body is_utf8 (drop 8 bytes)) ≡ parsed ev =
        ground arith in
      let (rest, split, fits) = decode-parsed (drop 8 bytes) ev tail body in
      (rest, cc (take-drop 8 bytes, same_bytes_sound (take 8 bytes) discriminator same), fits)

  -- With a discriminator of 8 bytes, bytes decode to an event exactly if they are the discriminator,
  -- the Borsh form of just this event and any further bytes, where the fields of the event fit their
  -- widths and its URI is text.
  pub parse_anchor_event_bytes_exact :
      (discriminator bytes : Bytes) (ev : ThoughtSubmittedEvent)
      → length discriminator ≡ 8
      → AreBytes bytes
      → (parse_anchor_event_bytes is_utf8 discriminator bytes ≡ parsed (some ev))
        ↔ ((rest : Bytes) × (bytes ≡ discriminator ++ (encode ev ++ rest)) × IsEncodable is_utf8 ev)
  parse_anchor_event_bytes_exact discriminator bytes ev eight small = (
    parse_anchor_event_bytes-parsed discriminator bytes ev small,
    λ (rest, split, fits).
        rw split (parse_anchor_event_bytes-encode is_utf8 discriminator ev rest eight fits),
  )
