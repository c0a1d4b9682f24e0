-- ===== src/Engine/Config.antt =====
-- execution-engine/src/config: verdicts, limits and the trusted language table.
use code_arena.Prelude.{ℕ, ◌*◌, Bool, true, false, Option, none, some, List, [], ◌∷◌, ◌++◌}
use code_arena.Prelude.{Result, ok, err, if◌then◌else◌, is_nil}
use code_arena.Prelude.Text.{Text, codes, trim, text_eq, one_of}

pub data Verdict : Type 0 where
  pending accepted wrong_answer compilation_error runtime_error : Verdict
  time_limit_exceeded memory_limit_exceeded output_limit_exceeded : Verdict

abbrev pub supported_languages : List Text
supported_languages = codes "CPP" ∷ codes "PYTHON" ∷ codes "JAVASCRIPT" ∷ []

abbrev pub max_source_code_bytes : ℕ
max_source_code_bytes = 65536

abbrev pub compile_timeout_ms : ℕ
compile_timeout_ms = 10000

abbrev pub execution_timeout_ms : ℕ
execution_timeout_ms = 5000

abbrev pub max_output_bytes : ℕ
max_output_bytes = 512 * 1024

abbrev pub max_buffer_bytes : ℕ
max_buffer_bytes = 512 * 1024

-- What the engine throws: a `ValidationError`, any other engine error, or an error of Node's.
pub data EngineError : Type 0 where
  validation_error execution_engine_error node_error : Text → EngineError

pub record LanguageConfig : Type 0 where
  pub identifier : Text
  pub source_filename : Text
  -- `none` where the entry has no compiler
  pub compiler : Option Text
  pub compile_args : List Text
  pub executable_filename : Text
  pub command : Text
  pub args : List Text
  pub is_compiled : Bool

abbrev pub cpp_config : LanguageConfig
cpp_config = record {
  identifier = codes "CPP";
  source_filename = codes "main.cpp";
  compiler = some (codes "g++");
  compile_args =
      codes "-O2" ∷ codes "-std=c++17" ∷ codes "main.cpp" ∷ codes "-o" ∷ codes "main" ∷ [];
  executable_filename = codes "main";
  command = codes "./main";
  args = [];
  is_compiled = true;
}

abbrev pub python_config : LanguageConfig
python_config = record {
  identifier = codes "PYTHON";
  source_filename = codes "main.py";
  compiler = none;
  compile_args = [];
  executable_filename = codes "main.py";
  command = codes "python3";
  args = codes "main.py" ∷ [];
  is_compiled = false;
}

abbrev pub javascript_config : LanguageConfig
javascript_config = record {
  identifier = codes "JAVASCRIPT";
  source_filename = codes "main.js";
  compiler = none;
  compile_args = [];
  executable_filename = codes "main.js";
  command = codes "node";
  args = codes "main.js" ∷ [];
  is_compiled = false;
}

-- `LANGUAGE_CONFIGS[name]`
unfoldable pub language_configs : Text → Option LanguageConfig
unfolding text_eq
language_configs name =
    if text_eq name (codes "CPP")
    then some cpp_config
    else if text_eq name (codes "PYTHON")
    then some python_config
    else if text_eq name (codes "JAVASCRIPT")
    then some javascript_config
    else none

config_of : Text → Option LanguageConfig → Result EngineError LanguageConfig
config_of name none =
    err (validation_error (codes "Configuration for language '" ++ (name ++ codes "' not found")))
config_of name (some c) = ok c

-- `toUpperCase` is the runtime's.
module _ (to_upper : Text → Text) where
  unfoldable pub resolve_language : Text → Result EngineError LanguageConfig
  unfolding config_of
  resolve_language language =
      if is_nil language
      then err (validation_error (codes "Language is required and must be a string"))
      else let normalized = to_upper (trim language) in
        if one_of normalized supported_languages
        then config_of normalized (language_configs normalized)
        else err (
            validation_error (
              codes "Language '"
              ++ (language
                  ++ codes "' is not supported. Supported languages: CPP, PYTHON, JAVASCRIPT")))
