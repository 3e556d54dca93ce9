-- ===== src/Processor/RoundTrip.antt =====
-- frameprocessor.go over the mapper of the client's requests: a response goes back under the stream
-- id of its request.
use zdm_proxy.Prelude.{
  ℕ, ◌≡◌, ◌≢◌, refl, sym, ◌∙◌, subst, ap, Bool-cases, none, some, List, ℤ, pos, int_beq,
  int_beq_iff, ok, Result-cases, inl, inr, All, arith,
}
use zdm_proxy.Protocol.{RawFrame, ProtocolVersions}
use zdm_proxy.StreamIds.{StreamIdMapper, get_new_id_for, release_id}
use zdm_proxy.StreamIds.Invariant.{Inv, quiet}
use zdm_proxy.StreamIds.Replies.{Call, releases, calls, release_after_get}
use zdm_proxy.Processor.{
  client_mapper, set_stream_id, set_raw_frame_stream_id, assign_unique_id, release_id_raw,
}

set_raw_frame_lem :
    (f : RawFrame) (id : ℤ)
    → set_raw_frame_stream_id f id ≡ record { header = set_stream_id id f.header; body = f.body }
unfolding set_raw_frame_stream_id
set_raw_frame_lem f id = elim (Bool-cases (int_beq f.header.stream_id id)) [
  | inr differs ↦ rw (differs, set_raw_frame_stream_id) refl
  | inl same ↦
      rw (same, set_raw_frame_stream_id)
        (ap (λ i. record { header = set_stream_id i f.header; body = f.body })
          ((int_beq_iff f.header.stream_id id).0 same))
]

module _ (versions : ProtocolVersions) where
  assigned :
      (f g : RawFrame) (m m' : StreamIdMapper)
      → assign_unique_id (client_mapper versions) (some f) m ≡ (m', some g, none)
      → (id : ℕ) × (get_new_id_for versions f.header.stream_id m ≡ (m', ok id))
        × (set_raw_frame_stream_id f (pos id) ≡ g)
  unfolding assign_unique_id
  assigned f g m m' h = elim (Result-cases (get_new_id_for versions f.header.stream_id m).1) [
    | inr (e, k) ↦ absurd (ground (arith, h, k))
    | inl (id, k) ↦ (id, ground (arith, h, k), ground (arith, h, k))
  ]

  -- On a mapper that keeps its invariant with no call under way, a request's frame that is
  -- assigned an id goes to the cluster as it is, but for its stream id. When the response comes
  -- back under that id, and whatever calls for other ids came in between, the response goes to
  -- the client as it is, but under the stream id of the request, and with no error.
  pub response_round_trip :
      (f g r : RawFrame) (m m' : StreamIdMapper) (cs : List Call)
      → Inv (quiet m)
      → assign_unique_id (client_mapper versions) (some f) m ≡ (m', some g, none)
      → All (λ c. c ≢ releases g.header.stream_id) cs
      → r.header.stream_id ≡ g.header.stream_id
      → (g ≡ record { header = set_stream_id g.header.stream_id f.header; body = f.body })
        × ((release_id_raw (client_mapper versions) (some r) (calls versions m' cs)).1
            ≡ some (record { header = set_stream_id f.header.stream_id r.header; body = r.body }))
        × ((release_id_raw (client_mapper versions) (some r) (calls versions m' cs)).2 ≡ none)
  unfolding release_id_raw
  response_round_trip f g r m m' cs v h others same =
      let (id, got, e) = assigned f g m m' h in
      let is_id : pos id ≡ g.header.stream_id =
        ap (λ (x : RawFrame). x.header.stream_id) (sym (set_raw_frame_lem f (pos id)) ∙ e) in
      let free : All (λ c. c ≢ releases (pos id)) cs =
        subst (λ i. All (λ c. c ≢ releases i) cs) (sym is_id) others in
      let back : (release_id r.header.stream_id (calls versions m' cs)).1 ≡ ok f.header.stream_id =
        ap (λ i. (release_id i (calls versions m' cs)).1) (same ∙ sym is_id)
        ∙ release_after_get versions f.header.stream_id m m' id cs v got free in
      (
        sym e
            ∙ set_raw_frame_lem f (pos id)
            ∙ ap (λ i. record { header = set_stream_id i f.header; body = f.body }) is_id,
        ground (arith, back) ∙ ap (λ x. some x) (set_raw_frame_lem r f.header.stream_id),
        ground (arith, back),
      )
