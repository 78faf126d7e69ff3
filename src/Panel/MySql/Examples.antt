-- ===== src/Panel/MySql/Examples.antt =====
-- Names and literals.
use oxydactylus.Base.{◌≡◌, refl, false, some}
use oxydactylus.Base.Text.{◌+++◌, all_chars}
use oxydactylus.Panel.Error.{ok}
use oxydactylus.Panel.MySql.{
  validate_mysql_username, validate_mysql_database_name, escape_mysql_string,
}
use oxydactylus.Panel.MySql.Literals.{read_literal, read_literal-escape_mysql_string}

read_literal-escape_mysql_string_example :
    read_literal false (escape_mysql_string "a'b\\" +++ ("'" +++ " OR 1")) ≡ some ("a'b\\", " OR 1")
read_literal-escape_mysql_string_example = read_literal-escape_mysql_string "a'b\\" " OR 1"

name_test : validate_mysql_database_name "s1-world" ≡ ok tt
unfolding validate_mysql_database_name all_chars
name_test = refl

username_test : validate_mysql_username "db_1" ≡ ok tt
unfolding validate_mysql_username all_chars
username_test = refl
