-- ===== src/Scripts/NoLoss.antt =====
-- No script loses a task: whatever copy it takes out of one place, it puts into another.
use crunchytask.Common.{
  ℤ, String, ◌≡◌, ◌⊎◌, inl, inr, true, false, ◌==◌, some, Option-cases, refl, ◌∙◌,
}
use mathlib.Core.Path.{subst}
use crunchytask.Outside.Floats.{Floats}
use crunchytask.Outside.Lua.{Lua}
use crunchytask.Outside.Redis.{
  Data, Redis, TextKey, pending_key, running_key, status_key, split_last,
}
use crunchytask.Scripts.{decode_table, decode_with, reserve_message, reserve_text, reserve_script}
use crunchytask.Scripts.Copies.{
  HasId, HasId-encode, Present, Present-hset_text, Present-lpush, lpush-Present,
  Present-hset_running, hset_running-Present, Present-rpop,
}
use crunchytask.Scripts.Names.{
  NamesTasks, HasId-unique, NamesTasks-hset_text, NamesTasks-lpush_pending, NamesTasks-hset_running,
  NamesTasks-rpop,
}

module _ (F : Floats) {Text : Type 0} (L : Lua F.Double Text) (R : Redis F.Double Text F.leb) where
  open F use {Double}
  open L use {
    Value, decode, encodable, encode, is_table, index, truthy, of_text, equals, set_text,
    set_number, clear, argument, tonumber, truthy-of_text, argument-of_text, is_table-set_text,
    is_table-set_number, is_table-clear, encodable-set_text, encodable-set_number, encodable-clear,
    index-set_text, index-set_number, index-clear,
  }
  open R use {rpop, lpush, hset_document, hset_text, rpop_none, rpop_some}

  -- The store names its tasks, and has a copy of each task that `Source` names.
  pub record Keeps (Source : String → Type 0) (d : Data Double Text) : Type 0 where
    pub names : NamesTasks F L R d
    pub copies : (id : String) → Source id → Present F L R id d

  -- The same, while the script holds the copy of one task.
  pub record Holds (Source : String → Type 0) (name : String) (d : Data Double Text) : Type 0 where
    pub names : NamesTasks F L R d
    pub copies : (id : String) → Source id → Present F L R id d ⊎ (name ≡ id)

  -- A table that is known to be a copy of a task.
  pub record Names (name : String) (v : Value) : Type 0 where
    pub is_a_table : is_table v ≡ true
    pub is_encodable : encodable v ≡ true
    pub named : index v "id" ≡ of_text name

  pub Names-set_text :
      (key s name : String) (v : Value)
      → (key == "id") ≡ false
      → Names name v
      → Names name (set_text key s v)
  Names-set_text key s name v e h = record {
    is_a_table = is_table-set_text key s v h.is_a_table;
    is_encodable = encodable-set_text key s v h.is_a_table h.is_encodable;
    named = rw (index-set_text key "id" s v h.is_a_table, e) h.named;
  }

  pub Names-set_number :
      (key : String) (n : ℤ) (name : String) (v : Value)
      → (key == "id") ≡ false
      → Names name v
      → Names name (set_number key n v)
  Names-set_number key n name v e h = record {
    is_a_table = is_table-set_number key n v h.is_a_table;
    is_encodable = encodable-set_number key n v h.is_a_table h.is_encodable;
    named = index-set_number key "id" n v h.is_a_table e ∙ h.named;
  }

  pub Names-clear :
      (key name : String) (v : Value)
      → (key == "id") ≡ false
      → Names name v
      → Names name (clear key v)
  Names-clear key name v e h = record {
    is_a_table = is_table-clear key v h.is_a_table;
    is_encodable = encodable-clear key v h.is_a_table h.is_encodable;
    named = index-clear key "id" v h.is_a_table e ∙ h.named;
  }

  -- A document of a named task passes the scripts' checks on its identifier.
  pub decode_table-HasId :
      {name : String} {t : Text} (h : HasId F L R name t) → decode_table F L R t ≡ some h.table
  unfolding decode_table
  decode_table-HasId h = rw (h.decoded, decode_table) (rw h.is_a_table)

  pub decode_with-HasId :
      {name : String} {t : Text} (h : HasId F L R name t) → decode_with F L R "id" t ≡ some h.table
  unfolding decode_with
  decode_with-HasId {name} h =
      rw (decode_table-HasId h, decode_with) (rw (h.named, truthy-of_text name))

  pub HasId-Names : {name : String} {t : Text} (h : HasId F L R name t) → Names name h.table
  HasId-Names h = record {
    is_a_table = h.is_a_table;
    is_encodable = h.is_encodable;
    named = h.named;
  }

  pub Names-encode : (name : String) (v : Value) → Names name v → HasId F L R name (encode v)
  Names-encode name v h = HasId-encode F L R name v h.is_a_table h.is_encodable h.named

  pub arg : (name : String) (v : Value) → v ≡ of_text name → argument v ≡ some name
  arg name v e = rw e (argument-of_text name)

  module _ {Source : String → Type 0} where
    -- From the hands of the script to the pending list.
    pub push_pending :
        (name : String) (t : Text) (d : Data Double Text)
        → HasId F L R name t
        → Holds Source name d
        → Keeps Source (lpush pending_key t d)
    push_pending name t d h k = record {
      names = NamesTasks-lpush_pending F L R t d (name, h) k.names;
      copies = λ id s. elim (k.copies id s) [
        | inl p ↦ Present-lpush F L R pending_key t d p
        | inr e ↦ lpush-Present F L R pending_key t d (subst (λ i. HasId F L R i t) e h)
      ];
    }

    pub Keeps-hset_text :
        (k : TextKey) (f s : String) (d : Data Double Text)
        → Keeps Source d
        → Keeps Source (hset_text k f s d)
    Keeps-hset_text k f s d h = record {
      names = NamesTasks-hset_text F L R k f s d h.names;
      copies = λ id p. Present-hset_text F L R k f s d (h.copies id p);
    }

    lease :
        (name : String) (t : Text) (d : Data Double Text)
        → HasId F L R name t
        → Holds Source name d
        → Keeps Source (hset_document running_key name t d)
    lease name t d h k = record {
      names = NamesTasks-hset_running F L R name t d h k.names;
      copies = λ id s. elim (k.copies id s) [
        | inl p ↦ Present-hset_running F L R name t d h p
        | inr e ↦
            subst (λ i. Present F L R i (hset_document running_key name t d)) e
              (hset_running-Present F L R {id = name} t d h)
      ];
    }

    reserve_message-Keeps :
        (now : ℤ) (name : String) (msg : Value) (d : Data Double Text)
        → Names name msg
        → Holds Source name d
        → Keeps Source (reserve_message F L R now msg d).1
    unfolding reserve_message
    reserve_message-Keeps now name msg d n k =
        let m : Names name (set_number "reserved_at_ms" now (set_text "status" "running" msg)) =
          Names-set_number "reserved_at_ms" now name _ refl
            (Names-set_text "status" "running" name msg refl n) in
        rw (m.is_encodable, arg name _ m.named, reserve_message)
          (Keeps-hset_text status_key name "running" _ (lease name _ d (Names-encode name _ m) k))

    -- A script that takes a text out holds the copy of the task that the text names.
    pub take :
        (name : String) (t : Text) (d : Data Double Text)
        → NamesTasks F L R d
        → HasId F L R name t
        → ((id : String) → Source id → Present F L R id d ⊎ HasId F L R id t)
        → Holds Source name d
    take name t d n h k = record {
      names = n;
      copies =
          λ id s. elim (k id s) [ inl p ↦ inl p | inr p ↦ inr (HasId-unique F L R name id t h p) ];
    }

    reserve_text-Keeps :
        (now : ℤ) (name : String) (t : Text) (d : Data Double Text)
        → HasId F L R name t
        → Holds Source name d
        → Keeps Source (reserve_text F L R now t d).1
    unfolding reserve_text
    reserve_text-Keeps now name t d h k =
        rw (decode_with-HasId h, reserve_text)
          (reserve_message-Keeps now name h.table d (HasId-Names h) k)

    pub reserve_script-Keeps :
        (now : ℤ) (d : Data Double Text)
        → Keeps Source d
        → Keeps Source (reserve_script F L R now d).1
    unfolding reserve_script
    reserve_script-Keeps now d h = elim (Option-cases (split_last d.pending)) [
      | inl e ↦ rw (rpop_none pending_key d e, reserve_script) h
      | inr ((front, t), e) ↦
          let (n, (name, named)) = NamesTasks-rpop F L R d front t e h.names in
          rw (rpop_some pending_key d front t e, reserve_script)
            (reserve_text-Keeps now name t _ named
              (take name t _ n named (λ id s. Present-rpop F L R d front t e (h.copies id s))))
    ]
