-- ===== src/Orchestrator/Config/Parse/Tests.antt =====
-- Runs of the parser on small files, and the theorems at concrete inputs.
use jetty.Prelude.{
  true, false, none, [], ◌∷◌, ◌≡◌, ◌≢◌, ◌⊎◌, inl, inr, sym, ◌∙◌, refl, sorted, insert_sorted,
  contains, ◌==◌, if◌then◌else◌, arith,
}
use jetty.Prelude.Dict.{get}
use jetty.Prelude.Text.Shell.{shell_from, shell_step}
use jetty.Orchestrator.Config.Validate.{
  validate, name_matches, check_ports, validate_resolvers, check_resolvers, validate_services,
  check_services, set_provides,
}
use jetty.Prelude.Text.Format.{fields_from}
use jetty.Orchestrator.Config.StartOrder.{start_order}
use jetty.Prelude.Text.{Str, str_eq, codes, starts_with}
use jetty.Orchestrator.Config.Model.{exited, signalled, term, ServiceConfig}
use jetty.Orchestrator.Config.Toml.{
  Toml, pos, negsuc, string, integer, boolean, array, table, nil, cons, Fields, end, field,
  get_field, merge_raw, put_field, remove_field,
}
use jetty.Orchestrator.Config.Toml.Merge.{get_field-merge_raw}
use jetty.Orchestrator.Config.Extends.{FileText, absent, document, loaded, out_of_fuel, load_raw}
use jetty.Orchestrator.Config.Extends.Ends.{load_raw-ends}
use jetty.Orchestrator.Config.Table.{
  take_argv, take_str, take_required, take_str_dict, take_table, nested, take_number, take_signed,
  done, take_int, take_int_list, take_bool, at, ints_of_items, pop, strs_of_fields, strs_of_items,
  take_choice, take_str_list, took, raised, unknown_keys, in_table,
}
use jetty.Orchestrator.Config.Parse.{
  ready_fields, ready_checked, restart_fields, stop_fields, config_fields, instance_fields,
  gate_fields, resolver_fields, each_entry, port_wants, FullConfig, automatic, parse,
  service_fields,
}
use jetty.Orchestrator.Config.Parse.Keys.{parse-known_keys, parse_service-known_keys}
use jetty.Orchestrator.Config.Parse.InRange.{FullInRange, parse-FullInRange}

abbrev metrics_service : Toml
metrics_service = table (field (codes "cmd") (string (codes "metrics")) end)

abbrev web_service : Toml
web_service = table (
    field (codes "cmd") (string (codes "./run --port '8 0'")) (
      field (codes "restart")
        (table (
          field (codes "max_restarts") (integer (pos 5)) (
            field (codes "no_restart_exit")
              (array (cons (integer (pos 2)) (cons (integer (negsuc 8)) nil))) end)))
        end))

-- A production file, and a development file that drops its metrics.
abbrev prod : Fields
prod = field (codes "instance") (table (field (codes "name") (string (codes "shop")) end)) (
    field (codes "services")
      (table (field (codes "web") web_service (field (codes "metrics") metrics_service end))) end)

abbrev dev : Fields
dev =
    field (codes "extends") (string (codes "prod.toml"))
      (field (codes "services") (table (field (codes "metrics") (boolean false) end)) end)

abbrev files : Str → FileText
files path =
    if path == codes "/etc/prod.toml"
    then document prod
    else if path == codes "/etc/dev.toml"
    then document dev
    else absent

abbrev unchanged : Str → Str
unchanged path = path

abbrev dev_merged : Fields
dev_merged =
    field (codes "instance") (table (field (codes "name") (string (codes "shop")) end))
      (field (codes "services") (table (field (codes "web") web_service end)) end)

load_dev : load_raw unchanged unchanged files 3 (codes "/etc/dev.toml") [] ≡ loaded dev_merged
unfolding load_raw str_eq get_field starts_with merge_raw remove_field put_field
load_dev = refl

abbrev web_config : ServiceConfig
web_config = record {
  cmd = codes "./run" ∷ codes "--port" ∷ codes "8 0" ∷ [];
  cwd = none;
  env = [];
  after = [];
  requires = [];
  ready = record {
    http = none;
    tcp = none;
    uds = none;
    path = none;
    timeout_seconds = 120;
    interval_seconds = 1;
  };
  restart = record {
    max_restarts = 5;
    window_seconds = 240;
    backoff_initial_seconds = 2;
    backoff_max_seconds = 60;
    no_restart_exit = exited 2 ∷ signalled 9 ∷ [];
  };
  stop = record { signal = term; grace_seconds = 40 };
  watch = [];
}

abbrev metrics_config : ServiceConfig
metrics_config = record web_config {
  cmd = codes "metrics" ∷ [];
  restart = record web_config.restart { max_restarts = 3; no_restart_exit = exited 2 ∷ [] };
}

abbrev dev_config : FullConfig
dev_config = record {
  instance_config = record { name = codes "shop"; containment = automatic; workdir = none };
  config = record {
    ports = [];
    gates = [];
    resolvers = [];
    services = (codes "web", web_config) ∷ [];
  };
}

parse_web :
    in_table (service_fields 1 (codes "services.web")) web_service (codes "services.web")
    ≡ took web_config (record { raw = end; place = codes "services.web" })
unfolding in_table service_fields ready_fields ready_checked restart_fields stop_fields take_argv
    take_str take_required take_str_dict take_table nested take_number take_signed done take_int
    take_int_list take_bool at ints_of_items pop strs_of_fields strs_of_items take_choice
    take_str_list get_field str_eq shell_from shell_step put_field remove_field get sorted
    insert_sorted starts_with
parse_web = refl

parse_metrics :
    in_table
      (service_fields 1 (codes "services.metrics"))
      metrics_service
      (codes "services.metrics")
    ≡ took metrics_config (record { raw = end; place = codes "services.metrics" })
unfolding in_table service_fields ready_fields ready_checked restart_fields stop_fields take_argv
    take_str take_required take_str_dict take_table nested take_number take_signed done take_int
    take_int_list take_bool at ints_of_items pop strs_of_fields strs_of_items take_choice
    take_str_list get_field str_eq shell_from shell_step put_field remove_field get sorted
    insert_sorted starts_with
parse_metrics = refl

parse_dev : parse 1 dev_merged ≡ took dev_config (record { raw = end; place = [] })
unfolding parse config_fields instance_fields gate_fields resolver_fields each_entry port_wants
    in_table service_fields ready_fields ready_checked restart_fields stop_fields take_argv take_str
    take_required take_str_dict take_table nested take_number take_signed done take_int
    take_int_list take_bool at ints_of_items pop strs_of_fields strs_of_items take_choice
    take_str_list get_field str_eq shell_from shell_step put_field remove_field get sorted
    insert_sorted starts_with validate name_matches check_ports validate_resolvers check_resolvers
    validate_services check_services set_provides fields_from start_order
parse_dev = refl

-- A misspelt key is refused.
misspelt :
    parse 1 (field (codes "service") (table end) dev_merged)
    ≡ raised (unknown_keys [] (codes "service" ∷ []))
unfolding parse config_fields instance_fields gate_fields resolver_fields each_entry port_wants
    in_table service_fields ready_fields ready_checked restart_fields stop_fields take_argv take_str
    take_required take_str_dict take_table nested take_number take_signed done take_int
    take_int_list take_bool at ints_of_items pop strs_of_fields strs_of_items take_choice
    take_str_list get_field str_eq shell_from shell_step put_field remove_field get sorted
    insert_sorted starts_with validate name_matches check_ports validate_resolvers check_resolvers
    validate_services check_services set_provides fields_from start_order
misspelt = refl

parse-FullInRange_example : FullInRange 1 dev_config
parse-FullInRange_example = parse-FullInRange 1 dev_merged parse_dev

parse-known_keys_example : get_field dev_merged (codes "service") ≡ none
unfolding str_eq
parse-known_keys_example = parse-known_keys 1 dev_merged parse_dev (codes "service") refl

parse_service-known_keys_example :
    get_field (field (codes "cmd") (string (codes "metrics")) end) (codes "max_restarts") ≡ none
unfolding str_eq
parse_service-known_keys_example =
    parse_service-known_keys 1 (codes "services.metrics") _ parse_metrics (codes "max_restarts")
      refl

abbrev prod_services : Fields
prod_services = field (codes "web") web_service (field (codes "metrics") metrics_service end)

abbrev dev_services : Fields
dev_services = field (codes "metrics") (boolean false) end

get_field-merge_raw_example :
    get_field (merge_raw prod_services dev_services) (codes "metrics") ≡ none
unfolding get_field str_eq
get_field-merge_raw_example =
    get_field-merge_raw prod_services dev_services (codes "metrics") (refl, tt)

files-exist :
    (p : Str)
    → (contains (codes "/etc/prod.toml" ∷ codes "/etc/dev.toml" ∷ []) (unchanged p) ≡ true)
      ⊎ (files p ≡ absent)
files-exist p = ground arith

not_a_table : (p : Str) → files p ≡ absent → (raw : Fields) → files p ≢ document raw
not_a_table p e raw h = absent-not-document (sym e ∙ h)
  where
    absent-not-document : {fields : Fields} → absent ≢ document fields
    absent-not-document h = cc

load_raw-ends_example :
    load_raw unchanged unchanged files 3 (codes "/etc/dev.toml") [] ≢ out_of_fuel
load_raw-ends_example =
    load_raw-ends unchanged unchanged files (codes "/etc/prod.toml" ∷ codes "/etc/dev.toml" ∷ [])
      (λ p. elim (files-exist p) [ inl m ↦ inl m | inr e ↦ inr (not_a_table p e) ]) 3
      (codes "/etc/dev.toml") (omega arith)
