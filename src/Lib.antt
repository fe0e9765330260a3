-- ===== src/Lib.antt =====
-- Verification of the Python code of meta-security, a set of layers of the Yocto project.
--
-- The parts.
--
-- * The script `set_required_questions.py` of
--   dynamic-layers/meta-perl/recipes-security/bastille/files, which edits the questions files of
--   Bastille at build time so that the questions of a configuration are asked on a distribution.
--   Questions/Lines.antt has its work on lines (`get_config`, `check_contains`, `add_requires`): a
--   generator is the list of what it yields and the exception that ends it, and an open file is the
--   list of the lines left to read. Questions/Files.antt has `xform_file` on a store of files, the
--   list of its changes, with `shutil.copystat`, `os.remove` and `shutil.move` as changes of one
--   path. Questions/Script.antt has `check_args` and `main`, with the path functions that they
--   call; a run is the text given to `sys.exit`, the exceptions printed and the files. What the
--   system chooses (working directory, name and bits of a temporary file, text of an `OSError`) is
--   the record `Os`, an argument of all of them; `IsFresh` says that a temporary name was free. The
--   proofs: Questions/Loops.antt has the induction on the loops of `add_requires`, Amend.antt one
--   amended line, Grows.antt what may change in a file, Require.antt the lines with nothing left to
--   do, Distros.antt the distributions of one question, read by its label and line, Keep.antt what
--   another question's run leaves of them, Shape.antt the result for a file of known shape,
--   Newlines.antt reading back what was written, Replace.antt the branches of `xform_file`,
--   Faults.antt its run where each of its calls may fail,
--   Lost.antt what such a run leaves, Transform.antt a run that ends, Satisfied.antt and Run.antt
--   `main`, and Config.antt the configuration. The abstract specification is in
--   Questions/View.antt: a questions file is a list of questions with their distributions, and
--   `insert` adds one to a question. Refines.antt and Insert.antt relate `add_requires` to it,
--   Shelf.antt the loop over the pairs on a store, and Order.antt has what does not depend on the
--   order of the pairs.
-- * The runtime tests of the layers, which OEQA runs against a booted image. Oeqa.antt has what
--   they share: an action of a test, and a target as a parameter, any function from the actions so
--   far and the next one to its reply; a test method gives its result or exception and all actions.
--   Oeqa/Verdict.antt has the forms of most tests, a command and what is asserted of its reply, and
--   `re.search` for patterns of plain characters and dots. Ima/Defs.antt is
--   meta-integrity/lib/oeqa/runtime/cases/ima.py; its proofs are in Ima/Counting.antt (the loops
--   over the binaries), Ima/Order.antt (the line numbers in dmesg), Ima/Hash.antt (the loop that
--   waits for the hash) and Ima/Sends.antt (what is sent). The files of Services are the files of
--   their names in lib/oeqa/runtime/cases; Services/Resolv.antt is what clamav.py and suricata.py
--   have in common, Contract.antt the table of what the tests of one command promise, and
--   Unnamed.antt what a missing import does to two of the files. Tpm/Endlines.antt and
--   Tpm/Cases.antt are tpm2.py and swtpm.py of meta-tpm/lib/oeqa/runtime/cases. Parsec/Defs.antt
--   and Parsec/Providers.antt are meta-parsec/lib/oeqa/runtime/cases/parsec.py: the build and the
--   interpreter, as far as the tests read them, are the record `Host`. Parsec/Fallback.antt has the
--   branches of a provider test, Parsec/Verdicts.antt when it passes, Parsec/Restored.antt what it
--   leaves, and Parsec/Unnamed.antt what a missing import does to it. Smack/Defs.antt,
--   Smack/Labels.antt and Smack/Table.antt are lib/oeqa/runtime/cases/smack.py, with the proofs in
--   Smack/Rules.antt and Smack/Settings.antt, on a label in a line of chsmack in Smack/Pieces.antt
--   and Smack/RoundTrip.antt, on a rule in Smack/Fields.antt and on the table in Smack/Files.antt.
--   The functions have the names of the methods.
-- * What the decorators of these tests say, in the files of Suite: Defs.antt has the decorators,
--   Services.antt, Monitors.antt, SmackTests.antt and Platform.antt the tests with theirs. OEQA,
--   which reads them, is the relation `IsRun` of Order.antt: a test runs only if those that it
--   names passed.
-- * The script recipes-mac/smack/smack-test/notroot.py, which runs a program with a label and as a
--   user. Notroot/Defs.antt has it as a machine of one step for each statement, over a record
--   `Kernel` of its system calls; Safety.antt is what may be executed, Ends.antt and Status.antt
--   how a run ends, Root.antt a run that root starts, and Unlabelled.antt a run by the commands of
--   smack.py, with the shell between them a parameter.
-- * The selftest lib/oeqa/selftest/cases/cvechecker.py: Cve/Defs.antt has it over a record `Build`
--   of the variables and files of a build, Cve/Config.antt what it does to the configuration.
-- * Text.antt has the string functions of Python that the code calls, on lists of code points;
--   Prelude.antt passes on library names and has results, generators and lists.
--
-- Fuel and bounds. Numbers are unbounded, as in Python. `decimal` runs on fuel n + 1 for the digits
-- of n, which are no more than n + 1. The loop of `test_ima_hash` recurses on the tries that are
-- left, `maximum_tries` at first. A run of notroot.py is given 8 steps: it has seven statements in
-- its `try`, and the handler is the last step of a run. All other loops recurse on the list that
-- they run over.
--
-- Not modelled: argument parsing (`handle_args`), text that cannot be decoded, calls for files that
-- fail in `main` for want of access or space (one run of `xform_file` with them is in Faults.antt),
-- the runner of OEQA and the base classes of the tests, and the recipes, classes and patches of the
-- layers, which are not Python modules.
pub mod Prelude
pub mod Text
pub mod Questions
pub mod Oeqa
pub mod Ima
pub mod Services
pub mod Tpm
pub mod Parsec
pub mod Smack
pub mod Notroot
pub mod Suite
pub mod Cve
