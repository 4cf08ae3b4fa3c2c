-- ===== src/Corpus/CaptureCli/Labelled.antt =====
-- What an entry writes: a capture with its label, or nothing.
use slidko.Prelude.{
  ℕ, String, concat, ◌≡◌, refl, sym, ap, ◌∙◌, ◌⊎◌, inl, inr, Option, none, some, List, [], ◌∷◌,
  ◌++◌, append_assoc, lookup, Float, after,
}
use slidko.Result.{
  Error, checked-eq, require-eq, Result, err, ok, ◌>>=◌, require, >>=-eq-ok, ok-injective,
}
use slidko.Json.{
  Json, text, put, lookup-put_self, lookup-put_other, entries-fields_of, dict_of, as_dict, Dict,
  as_text,
}
use slidko.Corpus.CaptureCli.{
  value_error, is_nil, validate, Write, write_bytes, write_text, checked_sidecar, sidecar_json,
  valid, entry_paths, stored, stored_sidecar, with_sidecar, with_capture, run_and_write,
  capture_entry,
}
use slidko.Corpus.Sidecar.{validate, ReceiverVerdict, Sidecar}
use slidko.Corpus.Sidecar.ToJson.{to_json}
use slidko.Corpus.Sidecar.RoundTrip.{from_json-to_json}
use slidko.Corpus.Sidecar.FromJson.{
  from_json, receiver_verdict_of, fault_injected_data, part, optional_part, instrument_of,
  driver_of, transport_of, receiver_of, protocol_of, sweep_cell_of, fault_injected_of, rename_class,
}

module _ {F : Type 0} ⦃fl : Float F⦄ where
  -- Three parts of a sidecar, and what they are read from.
  record IsReadFrom (given : Dict F) (s : Sidecar F) : Type 0 where
    verdict : optional_part "receiver_verdict" receiver_verdict_of given ≡ ok s.receiver_verdict
    id : (require "id" given >>= as_text) ≡ ok s.id
    capture_file : (require "capture_file" given >>= as_text) ≡ ok s.capture_file

  from_json-IsReadFrom :
      (given : Dict F) (s : Sidecar F) → from_json given ≡ ok s → IsReadFrom given s
  unfolding from_json
  from_json-IsReadFrom given s e0 =
      let (fault, h0, e1) = >>=-eq-ok (fault_injected_data (lookup "fault_injected" given)) _ e0 in
      let (instrument, h1, e2) = >>=-eq-ok (part "instrument" instrument_of given) _ e1 in
      let (driver, h2, e3) = >>=-eq-ok (part "driver" driver_of given) _ e2 in
      let (transport, h3, e4) = >>=-eq-ok (part "transport" transport_of given) _ e3 in
      let (receiver, h4, e5) = >>=-eq-ok (part "receiver" receiver_of given) _ e4 in
      let (protocol, h5, e6) = >>=-eq-ok (part "protocol" protocol_of given) _ e5 in
      let (fault_injected, h6, e7) = >>=-eq-ok (fault_injected_of (rename_class fault)) _ e6 in
      let (verdict, h7, e8) =
        >>=-eq-ok (optional_part "receiver_verdict" receiver_verdict_of given) _ e7 in
      let (sweep_cell, h8, e9) = >>=-eq-ok (optional_part "sweep_cell" sweep_cell_of given) _ e8 in
      let (referee, h9, e10) = >>=-eq-ok (optional_part "referee" ok given) _ e9 in
      let (id, h10, e11) = >>=-eq-ok (require "id" given >>= as_text) _ e10 in
      let (capture_file, h11, e12) = >>=-eq-ok (require "capture_file" given >>= as_text) _ e11 in
      rw (← ok-injective _ s e12) (record { verdict = h7; id = h10; capture_file = h11 })

  text_read :
      (k : String) (given : Dict F) (s t : String)
      → lookup k given ≡ some (text t)
      → (require k given >>= as_text) ≡ ok s
      → s ≡ t
  text_read k given s t found e =
      sym (ok-injective _ _ (sym (ap (λ r. r >>= as_text) (require-eq k given found)) ∙ e))

  -- The sidecar of an entry has the verdict that was given, and names the entry and its capture.
  pub record IsEntry (cell entry_id : String) (verdict : Dict F) (s : Sidecar F) : Type 0 where
    pub label :
        (v : ReceiverVerdict) × (receiver_verdict_of verdict ≡ ok v) × (s.receiver_verdict ≡ some v)
    pub id : s.id ≡ concat cell (concat "/" entry_id)
    pub capture_file : s.capture_file ≡ concat entry_id ".sr"

  module _ (cell entry_id : String) (sidecar_fields : Dict F) where
    read_label :
        (verdict : Dict F) (s : Sidecar F)
        → (as_dict (dict_of verdict) >>= receiver_verdict_of >>= (λ v. ok (some v)))
          ≡ ok s.receiver_verdict
        → (v : ReceiverVerdict) × (receiver_verdict_of verdict ≡ ok v)
          × (s.receiver_verdict ≡ some v)
    read_label verdict s e =
        let (v, read, last) =
          >>=-eq-ok (receiver_verdict_of verdict) (λ v. ok (some v))
            (rw (entries-fields_of verdict) at e) in
        (v, read, sym (ok-injective _ _ last))

    from_json-IsEntry :
        (verdict : Dict F) (s : Sidecar F)
        → from_json (sidecar_json cell entry_id sidecar_fields verdict) ≡ ok s
        → IsEntry cell entry_id verdict s
    from_json-IsEntry verdict s e =
        let named = put "id" (text (concat cell (concat "/" entry_id))) sidecar_fields in
        let filed = put "capture_file" (text (concat entry_id ".sr")) named in
        let read = from_json-IsReadFrom (sidecar_json cell entry_id sidecar_fields verdict) s e in
        record {
          label =
              read_label verdict s
                (rw (lookup-put_self "receiver_verdict" (dict_of verdict) filed) at read.verdict);
          id =
              text_read "id" (sidecar_json cell entry_id sidecar_fields verdict) _ _
                (lookup-put_other "receiver_verdict" "id" (dict_of verdict) filed refl
                  ∙ lookup-put_other "capture_file" "id" (text (concat entry_id ".sr")) named refl
                  ∙ lookup-put_self "id" (text (concat cell (concat "/" entry_id))) sidecar_fields)
                read.id;
          capture_file =
              text_read "capture_file" (sidecar_json cell entry_id sidecar_fields verdict) _ _
                (lookup-put_other "receiver_verdict" "capture_file" (dict_of verdict) filed refl
                  ∙ lookup-put_self "capture_file" (text (concat entry_id ".sr")) named)
                read.capture_file;
        }

    valid-eq : (s t : Sidecar F) → valid s ≡ ok t → s ≡ t
    valid-eq s t e =
        checked-eq (is_nil (validate s)) s t (value_error "sidecar failed validation") e

    checked_sidecar-IsEntry :
        (verdict : Option (Dict F)) (s : Sidecar F)
        → checked_sidecar cell entry_id sidecar_fields verdict ≡ ok s
        → (d : Dict F) × (verdict ≡ some d) × IsEntry cell entry_id d s
    checked_sidecar-IsEntry none s e = cc
    checked_sidecar-IsEntry (some []) s e = cc
    checked_sidecar-IsEntry (some (v ∷ verdict)) s e =
        let (t, read, last) =
          >>=-eq-ok (from_json (sidecar_json cell entry_id sidecar_fields (v ∷ verdict))) valid e in
        (v ∷ verdict, refl, from_json-IsEntry (v ∷ verdict) s (read ∙ ap ok (valid-eq t s last)))

    module _ (dumps : Json F → Result String) (disk : Write → Option Error) where
      -- The sidecar has no text, or its write raises.
      abbrev pub IsLost : Sidecar F → Error → Type 0
      IsLost s raised =
          (dumps (dict_of (to_json s)) ≡ err raised)
          ⊎ ((t : String) × (dumps (dict_of (to_json s)) ≡ ok t)
              × (disk (write_text (entry_paths cell entry_id).1 t) ≡ some raised))

      stored-ok : (w v : Write) → stored dumps disk w ≡ ok v → w ≡ v
      stored-ok w v e = by_outcome (disk w) e
        where
          by_outcome :
              (o : Option Error)
              → (elim o [ none ↦ ok w | some raised ↦ err raised ]) ≡ ok v
              → w ≡ v
          by_outcome none h = ok-injective w v h
          by_outcome (some raised) h = cc

      stored-err :
          (w : Write) (raised : Error) → stored dumps disk w ≡ err raised → disk w ≡ some raised
      stored-err w raised e = by_outcome (disk w) refl e
        where
          by_outcome :
              (o : Option Error)
              → disk w ≡ o
              → (elim o [ none ↦ ok w | some r ↦ err r ]) ≡ err raised
              → disk w ≡ some raised
          by_outcome none same h = cc
          by_outcome (some r) same h = let equal : r ≡ raised = cc in same ∙ ap (λ x. some x) equal

      lost :
          (s : Sidecar F) (raised : Error)
          → stored_sidecar dumps disk (entry_paths cell entry_id).1 s ≡ err raised
          → IsLost s raised
      lost s raised e = by_text (dumps (dict_of (to_json s))) refl e
        where
          by_text :
              (r : Result String)
              → dumps (dict_of (to_json s)) ≡ r
              → (r >>= λ t. stored dumps disk (write_text (entry_paths cell entry_id).1 t))
                ≡ err raised
              → IsLost s raised
          by_text (err other) same h =
              let equal : other ≡ raised = cc in inl (same ∙ ap (λ x. err x) equal)
          by_text (ok t) same h = inr (t, same, stored-err _ raised h)

      module _ (bytes : Result (List ℕ)) (verdict : Option (Dict F)) (writes : List Write) where
        -- The bytes of the instrument, and a sidecar with the verdict that was given.
        pub record HasLabel (s : Sidecar F) (sr_bytes : List ℕ) : Type 0 where
          pub verdict_given : (d : Dict F) × (verdict ≡ some d) × IsEntry cell entry_id d s
          pub captured : bytes ≡ ok sr_bytes
          pub read_back : from_json (to_json s) ≡ ok s

        -- Nothing is written; or a capture alone, because its sidecar was lost; or a capture and then its sidecar.
        abbrev pub IsLabelled : Result (String × String) × List Write → Type 0
        IsLabelled (err raised, after) =
            (after ≡ writes)
            ⊎ ((s : Sidecar F) × (sr_bytes : List ℕ) × HasLabel s sr_bytes
                × (after ≡ writes ++ write_bytes (entry_paths cell entry_id).0 sr_bytes ∷ [])
                × IsLost s raised)
        IsLabelled (ok paths, after) =
            (s : Sidecar F) × (sr_bytes : List ℕ) × (t : String) × HasLabel s sr_bytes
            × (paths ≡ entry_paths cell entry_id)
            × (dumps (dict_of (to_json s)) ≡ ok t)
            × (after ≡ writes ++ write_bytes paths.0 sr_bytes ∷ write_text paths.1 t ∷ [])

        sidecar-IsLabelled :
            (s : Sidecar F) (sr_bytes : List ℕ) (r : Result Write)
            → HasLabel s sr_bytes
            → stored_sidecar dumps disk (entry_paths cell entry_id).1 s ≡ r
            → IsLabelled (
                with_sidecar dumps disk
                  (entry_paths cell entry_id)
                  (writes ++ write_bytes (entry_paths cell entry_id).0 sr_bytes ∷ [])
                  r)
        sidecar-IsLabelled s sr_bytes (err raised) label e =
            inr (s, sr_bytes, label, refl, lost s raised e)
        sidecar-IsLabelled s sr_bytes (ok w) label e =
            let (t, printed, last) = >>=-eq-ok (dumps (dict_of (to_json s))) _ e in
            let same = stored-ok (write_text (entry_paths cell entry_id).1 t) w last in
            (
              s,
              sr_bytes,
              t,
              label,
              refl,
              printed,
              append_assoc writes _ _
                  ∙ ap (λ v. writes ++ write_bytes (entry_paths cell entry_id).0 sr_bytes ∷ v ∷ [])
                      (sym same),
            )

        capture-IsLabelled :
            (s : Sidecar F) (sr_bytes : List ℕ) (r : Result Write)
            → HasLabel s sr_bytes
            → stored dumps disk (write_bytes (entry_paths cell entry_id).0 sr_bytes) ≡ r
            → IsLabelled (with_capture dumps disk (entry_paths cell entry_id) writes s r)
        capture-IsLabelled s sr_bytes (err raised) label e = inl refl
        capture-IsLabelled s sr_bytes (ok w) label e =
            rw (← stored-ok (write_bytes (entry_paths cell entry_id).0 sr_bytes) w e)
              (sidecar-IsLabelled s sr_bytes _ label refl)

        run_and_write-IsLabelled :
            (sidecar : Result (Sidecar F)) (b : Result (List ℕ))
            → checked_sidecar cell entry_id sidecar_fields verdict ≡ sidecar
            → bytes ≡ b
            → IsLabelled (run_and_write dumps disk cell entry_id sidecar b writes)
        run_and_write-IsLabelled (err raised) b checked ran = inl refl
        run_and_write-IsLabelled (ok s) (err raised) checked ran = inl refl
        run_and_write-IsLabelled (ok s) (ok sr_bytes) checked ran =
            capture-IsLabelled s sr_bytes _
              (record {
                verdict_given = checked_sidecar-IsEntry verdict s checked;
                captured = ran;
                read_back = from_json-to_json s;
              })
              refl

        -- An entry that ends has a verdict and the instrument's bytes; it has written the bytes and after them a sidecar,
        -- which has the verdict that was given and the name of the entry and of its capture, and which is read back as it
        -- is. An entry that raises has written nothing, or the bytes alone if what raises is the printing or the write of
        -- such a sidecar.
        pub capture_entry-IsLabelled :
            IsLabelled (capture_entry dumps disk cell entry_id sidecar_fields bytes verdict writes)
        unfolding capture_entry
        capture_entry-IsLabelled = run_and_write-IsLabelled _ _ refl refl
