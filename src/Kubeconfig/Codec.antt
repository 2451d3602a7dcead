-- ===== src/Kubeconfig/Codec.antt =====
-- A codec of one-key documents and a typed view of them, for the examples.
use mathlib.Core.Path.{subst}
use cubelite.Prelude.{
  ◌≡◌, refl, sym, ap, ◌∙◌, true, false, Option, none, some, [], ◌∷◌, arith, if◌then◌else◌, and_then,
}
use cubelite.Prelude.Results.{Result, ok, err}
use cubelite.Prelude.Texts.{Text, codes, text_eq, text_eq_iff, text_eq_refl}
use cubelite.Kubeconfig.Types.{NamedContext, NamedCluster, KubeConfigFile}
use cubelite.Kubeconfig.Yaml.{Value, Fields, as_str, get}
use cubelite.Kubeconfig.Merge.{Serde, FileSystem}
use cubelite.Kubeconfig.Access.{insert_field, update_mapping, set_current}
use cubelite.Kubeconfig.Saved.{IsFaithful, HasPlainKeys, is_plain}

abbrev pub current_key : Text
current_key = codes "current-context"

abbrev pub document : Text → Value
document name =
    Value.mapping (Fields.field (Value.string current_key) (Value.string name) Fields.end)

abbrev pub cluster_at : Text → Text → NamedCluster
cluster_at name server = record {
  name = name;
  cluster = some (record {
    server = server;
    certificate_authority_data = none;
    certificate_authority = none;
    insecure_skip_tls_verify = false;
  });
}

abbrev pub context_on : Text → Text → NamedContext
context_on name cluster = record {
  name = name;
  context = some (record { cluster = cluster; user = codes "admin"; namespace = none });
}

-- The typed view of a document: two contexts, and the current one as the document says.
abbrev pub current_in : Fields → Option Text
current_in fields = and_then (get (Value.mapping fields) current_key) as_str

abbrev pub file_with : Fields → KubeConfigFile
file_with fields = record {
  contexts =
      context_on (codes "dev") (codes "east") ∷ context_on (codes "prod") (codes "west") ∷ [];
  clusters =
      cluster_at (codes "east") (codes "https://east")
      ∷ cluster_at (codes "west") (codes "https://west")
      ∷ [];
  users = [];
  current_context = current_in fields;
}

abbrev pub view : Value → Result Text KubeConfigFile
view (Value.mapping fields) = ok (file_with fields)
view _ = err (codes "not a mapping")

abbrev pub write : Value → Result Text Text
write (Value.mapping (Fields.field (Value.string key) (Value.string name) Fields.end)) =
    if text_eq key current_key then ok name else err (codes "unknown key")
write _ = err (codes "not supported")

abbrev pub codec : Serde
codec = record {
  parse_config = λ content. view (document content);
  parse_value = λ content. ok (document content);
  value_eq = λ a b. false;
  write_value = write;
}

write-parse : (doc : Value) (content : Text) → write doc ≡ ok content → document content ≡ doc
write-parse (Value.mapping (Fields.field (Value.string key) (Value.string name) Fields.end)) content
      h =
    let same : key ≡ current_key = (text_eq_iff key current_key).0 (ground arith) in
    let here : name ≡ content = ground arith in
    λ i.
      Value.mapping
        (Fields.field (Value.string (sym same i)) (Value.string (sym here i)) Fields.end)
write-parse _ content h = cc

-- The keys of the documents have no tags.
pub codec-HasPlainKeys : (fs : FileSystem) → HasPlainKeys codec fs
unfolding as_str
codec-HasPlainKeys fs p content doc r e =
    let same : document content ≡ doc = cc e in
    subst (λ d. is_plain current_key d ≡ true) same (rw (text_eq_refl current_key) refl)

changed-document :
    (content name : Text)
    → update_mapping (set_current (some name)) (document content) ≡ some (document name)
unfolding update_mapping insert_field
changed-document content name = rw (text_eq_refl current_key) refl

write-document : (name : Text) → write (document name) ≡ ok name
write-document name = rw (text_eq_refl current_key) refl

current_in-document :
    (name : Text)
    → current_in (Fields.field (Value.string current_key) (Value.string name) Fields.end)
      ≡ some name
unfolding get as_str
current_in-document name = rw (text_eq_refl current_key) refl

typed-current :
    (content yaml : Text) (doc changed : Value) (name : Text)
    → document content ≡ doc
    → update_mapping (set_current (some name)) doc ≡ some changed
    → write changed ≡ ok yaml
    → (g : KubeConfigFile) × (view (document yaml) ≡ ok g) × (g.current_context ≡ some name)
typed-current content yaml doc changed name same set written =
    let set' : update_mapping (set_current (some name)) (document content) ≡ some changed =
      subst (λ d. update_mapping (set_current (some name)) d ≡ some changed) (sym same) set in
    let made : document name ≡ changed = cc (set', changed-document content name) in
    let named : name ≡ yaml =
      cc (subst (λ d. write d ≡ ok yaml) (sym made) written, write-document name) in
    (
      file_with (Fields.field (Value.string current_key) (Value.string yaml) Fields.end),
      refl,
      current_in-document yaml ∙ ap some (sym named),
    )

pub codec-IsFaithful : IsFaithful codec
codec-IsFaithful = record {
  write_parse = λ doc content h. ap ok (write-parse doc content h);
  typed_current = λ content yaml doc changed f name v c p set written.
      typed-current content yaml doc changed name (cc v) set written;
}
