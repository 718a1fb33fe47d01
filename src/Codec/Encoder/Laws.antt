-- ===== src/Codec/Encoder/Laws.antt =====
-- pkg/serializer/encode.go: which texts are written for a list of objects, and in which versions.
use libgitops.Prelude.{
  ◌≡◌, refl, ◌∙◌, sym, ap, false, none, some, List, [], ◌∷◌, ◌++◌, append-nil, append_assoc, arith,
  if◌then◌else◌, Option-cases, Bool-cases, inl, inr,
}
use libgitops.Prelude.Text.{Str, str_eq}
use libgitops.Prelude.Outcome.{
  Outcome, Outcome-cases, bind-ok, ok, err, panic, unsupported_content_type,
}
use libgitops.Key.{Gvk}
use libgitops.Codec.{
  Objects, Scheme, GroupVersion, gvk_for_object, prioritized_version_for_group,
  api_version_internal, group_version_of,
}
use libgitops.Codec.Annotations.{is_meta, get_annotation, delete_annotation, delete_annotation-none}
use libgitops.Codec.Comments.{
  Trees, FrameSink, write_ok, normal_encode, no_annotation_wrapper, encode_with_comment_support,
  preserve_comments_annotation,
}
use libgitops.Codec.Encoder.{
  EncodingOptions, SerializerInfo, Codecs, encoder_for_version, choose_serializer,
  encode_for_group_version, target_version, encode,
}

-- A frame writer whose state has a list of the texts that were written.
pub record IsLog {W : Type 0} (sink : FrameSink W) (log : W → List Str) : Type 0 where
  pub logged :
      (text : Str) (w : W)
      → (sink.write text w).1 ≡ ok tt
      → log (sink.write text w).0 ≡ log w ++ (text ∷ [])

write_ok-log :
    {W : Type 0} (sink : FrameSink W) (log : W → List Str)
    → IsLog sink log
    → (w : W) (text : Outcome Str) → (write_ok sink w text).1 ≡ ok tt
    → (d : Str) × (text ≡ ok d) × (log (write_ok sink w text).0 ≡ log w ++ (d ∷ []))
write_ok-log sink log is_log w (ok d) h = (d, refl, is_log.logged d w h)
write_ok-log sink log is_log w (err e) h = absurd (ground (arith, h))
write_ok-log sink log is_log w panic h = absurd (ground (arith, h))

module _ {S O : Type 0} (api : Objects O) (scheme : Scheme S O) (s : S) where
  -- No group prefers the internal version.
  pub record PrefersExternal : Type 0 where
    pub external :
        (group : Str) (gv : GroupVersion)
        → prioritized_version_for_group api scheme s group ≡ ok gv
        → str_eq gv.version api_version_internal ≡ false

  -- The version that an object is encoded in is never the internal one, if no group prefers that,
  -- and its group is the one of the object.
  pub target_version-external :
      PrefersExternal
      → (obj : O) (gv : GroupVersion) → target_version api scheme s obj ≡ ok gv
      → (gvk : Gvk) × (gvk_for_object api scheme s obj ≡ ok gvk)
        × (gv.group ≡ gvk.group)
        × (str_eq gv.version api_version_internal ≡ false)
  unfolding target_version
  target_version-external prefers obj gv h =
      let (gvk, typed, rest) = bind-ok (gvk_for_object api scheme s obj) _ gv h in
      elim (Bool-cases (str_eq gvk.version api_version_internal)) [
        | inl internal ↦
            let (gv1, preferred, last) =
              bind-ok (prioritized_version_for_group api scheme s gvk.group)
                (λ gv1. ok (group_version_of (record gvk { version = gv1.version }))) gv
                (ground (arith, internal, rest)) in
            (
              gvk,
              typed,
              ground (arith, last),
              ground (arith, last, prefers.external gvk.group gv1 preferred),
            )
        | inr other ↦ (gvk, typed, ground (arith, other, rest), ground (arith, other, rest))
      ]

module _ {S O Y C : Type 0} (api : Objects O) (scheme : Scheme S O) (trees : Trees Y)
    (codecs : Codecs C O) (opts : EncodingOptions) (s : S) where
  -- The object that the version encoder is given: without the document in its annotations.
  unfoldable pub seen : O → O
  seen obj = if is_meta api obj then delete_annotation api preserve_comments_annotation obj else obj

  wrapper-seen :
      {W : Type 0} (sink : FrameSink W) (f : O → Outcome Str) (obj : O) (w : W)
      → (let r = no_annotation_wrapper api trees (normal_encode sink f) obj w in
          (r.1, r.2) ≡ write_ok sink w (f (delete_annotation api preserve_comments_annotation obj)))
  unfolding no_annotation_wrapper normal_encode
  wrapper-seen sink f obj w =
      elim (Option-cases (get_annotation api preserve_comments_annotation obj)) [
        | inl lost ↦
            let same = delete_annotation-none api preserve_comments_annotation obj lost in
            ground (arith, lost, ap (λ o. write_ok sink w (f o)) same)
        | inr (val, found) ↦ ground (arith, found)
      ]

  -- The text is what the serializer of the content type gives for the target version.
  pub record EncodedAs {W : Type 0} (sink : FrameSink W) (obj : O) (text : Str) : Type 0 where
    pub gv : GroupVersion
    pub info : SerializerInfo C
    pub targets : target_version api scheme s obj ≡ ok gv
    pub supported : codecs.info sink.content_type ≡ some info
    pub encoded :
        encoder_for_version api scheme trees codecs opts s
          (choose_serializer api scheme trees codecs opts s info)
          gv
          (seen obj)
        ≡ ok text

  -- The texts for a list of objects, one for each and in order.
  pub data EncodedAll {W : Type 0} (sink : FrameSink W) : List O → List Str → Type 0 where
    none_left : EncodedAll sink [] []
    one_more :
        {obj : O} {text : Str} {objs : List O} {texts : List Str}
        → EncodedAs sink obj text
        → EncodedAll sink objs texts
        → EncodedAll sink (obj ∷ objs) (text ∷ texts)

  write_seen :
      {W : Type 0} (sink : FrameSink W) (w : W) (obj : O) (gv : GroupVersion)
      (info : SerializerInfo C)
      → opts.preserve_comments ≡ false
      → codecs.info sink.content_type ≡ some info
      → (let r = encode_for_group_version api scheme trees codecs opts s sink w obj gv in
          (r.1, r.2)
          ≡ write_ok sink w (
              encoder_for_version api scheme trees codecs opts s
                (choose_serializer api scheme trees codecs opts s info)
                gv
                (seen obj)))
  unfolding encode_for_group_version encode_with_comment_support normal_encode seen
  write_seen sink w obj gv info plain supported =
      let f =
        encoder_for_version api scheme trees codecs opts s
          (choose_serializer api scheme trees codecs opts s info) gv in
      elim (Bool-cases (is_meta api obj)) [
        | inl meta ↦ ground (arith, supported, meta, plain, wrapper-seen sink f obj w)
        | inr other ↦ ground (arith, supported, other)
      ]

  unsupported_lem :
      {W : Type 0} (sink : FrameSink W) (w : W) (obj : O) (gv : GroupVersion)
      → codecs.info sink.content_type ≡ none
      → (encode_for_group_version api scheme trees codecs opts s sink w obj gv).2
        ≡ err unsupported_content_type
  unfolding encode_for_group_version
  unsupported_lem sink w obj gv h = ground (arith, h)

  one-EncodedAs :
      {W : Type 0} (sink : FrameSink W) (log : W → List Str)
      → IsLog sink log
      → opts.preserve_comments ≡ false
      → (w : W) (obj : O) (gv : GroupVersion) → target_version api scheme s obj ≡ ok gv
      → (encode_for_group_version api scheme trees codecs opts s sink w obj gv).2 ≡ ok tt
      → (d : Str) × EncodedAs sink obj d
        × (log (encode_for_group_version api scheme trees codecs opts s sink w obj gv).1
            ≡ log w ++ (d ∷ []))
  one-EncodedAs sink log is_log plain w obj gv targets h =
      elim (Option-cases (codecs.info sink.content_type)) [
        | inl unsupported ↦ absurd (ground (arith, unsupported_lem sink w obj gv unsupported, h))
        | inr (info, supported) ↦
            let wrote = write_seen sink w obj gv info plain supported in
            let (d, encoded, logged) =
              write_ok-log sink log is_log w _ (sym (ap (λ r. r.1) wrote) ∙ h) in
            (
              d,
              record {
                gv = gv;
                info = info;
                targets = targets;
                supported = supported;
                encoded = encoded;
              },
              ap (λ r. log r.0) wrote ∙ logged,
            )
      ]

  -- If Encode succeeds without comments, then it has written one text for each object, in order:
  -- what the serializer of the content type gives for the target version of the object, without
  -- the document in its annotations.
  pub encode-EncodedAll :
      {W : Type 0} (sink : FrameSink W) (log : W → List Str)
      → IsLog sink log
      → opts.preserve_comments ≡ false
      → (w : W) (objs : List O) → (encode api scheme trees codecs opts s sink w objs).2 ≡ ok tt
      → (texts : List Str) × EncodedAll sink objs texts
        × (log (encode api scheme trees codecs opts s sink w objs).1 ≡ log w ++ texts)
  unfolding encode
  encode-EncodedAll sink log is_log plain w [] h = ([], none_left, sym (append-nil (log w)))
  encode-EncodedAll sink log is_log plain w (obj ∷ objs) h =
      elim (Outcome-cases (target_version api scheme s obj)) [
        | inl (gv, targets) ↦
            let r = encode_for_group_version api scheme trees codecs opts s sink w obj gv in
            elim (Outcome-cases r.2) [
              | inl (u, fine) ↦
                  let (d, as_d, logged) =
                    one-EncodedAs sink log is_log plain w obj gv targets fine in
                  let (texts, all, rest) =
                    encode-EncodedAll sink log is_log plain r.1 objs
                      (ground (arith, targets, fine, h)) in
                  (
                    d ∷ texts,
                    one_more as_d all,
                    ground (arith, targets, fine)
                        ∙ rest
                        ∙ ap (λ l. l ++ texts) logged
                        ∙ append_assoc (log w) (d ∷ []) texts,
                  )
              | inr (inl (e, failed)) ↦ absurd (ground (arith, targets, failed, h))
              | inr (inr died) ↦ absurd (ground (arith, targets, died, h))
            ]
        | inr (inl (e, failed)) ↦ absurd (ground (arith, failed, h))
        | inr (inr died) ↦ absurd (ground (arith, died, h))
      ]
