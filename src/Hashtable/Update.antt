-- ===== src/Hashtable/Update.antt =====
-- Writes to a table where memory suffices.
use distributed_hash_table.Base.{◌≡◌, ◌∙◌, refl, inl, inr, [], some, ok, if◌then◌else◌}
use distributed_hash_table.Error.{err_none}
use distributed_hash_table.CString.{Bytes, str_eq}
use distributed_hash_table.Hashtable.{Htable, add_htable_value}
use distributed_hash_table.Hashtable.Table.{IsValid, view, add_htable_value-Writes}

-- With memory to spare a write is done.
pub add_htable_value-done :
    (t : Htable) (k v : Bytes)
    → IsValid t
    → (t' : Htable) × (add_htable_value t (some k) (some v) [] ≡ ok (t', err_none, []))
      × IsValid t'
      × ((q : Bytes) → view t' q ≡ (if str_eq k q then some v else view t q))
add_htable_value-done t k v valid =
    let ((t', e, m), run, w) = add_htable_value-Writes t k v [] valid in
    elim w.enough [
      | inl full ↦ absurd (full refl)
      | inr (c, d) ↦ elim w.written [
        | inl (_, f) ↦ (t', run ∙ cc, w.valid, f)
        | inr (no_memory, _) ↦ absurd (cc)
      ]
    ]
